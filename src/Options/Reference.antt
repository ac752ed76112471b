-- ===== src/Options/Reference.antt =====
-- src/settings.c against a description of the command line as a whole.
use knot_virtualthing.Prelude.{
  ℤ, pos, String, Bool, true, false, not, ◌||◌, ◌≡◌, refl, ◌∙◌, Option, none, some, List, [], ◌∷◌,
  str_eq, is_neg, ltb_ℤ, if◌then◌else◌, Bool-cases, inl, inr, arith,
}
use knot_virtualthing.Options.{
  LogLevels, Opt, credentials_file, dev_file, cloud_file, log, nodetach, unknown, Settings,
  parse_log_level, parse_args, default_settings, settings_load,
}

-- the options before the first --help
abbrev before_help : List Opt → List Opt
before_help [] = []
before_help (Opt.help ∷ opts) = []
before_help (o ∷ opts) = o ∷ before_help opts

abbrev asks_for_help : List Opt → Bool
asks_for_help [] = false
asks_for_help (Opt.help ∷ opts) = true
asks_for_help (o ∷ opts) = asks_for_help opts

abbrev is_level : String → Bool
is_level name =
    str_eq name "error" || (str_eq name "warn" || (str_eq name "info" || str_eq name "debug"))

-- an option that the program does not know, or a level that is no level
abbrev is_refused : Opt → Bool
is_refused unknown = true
is_refused (log name) = not (is_level name)
is_refused o = false

abbrev any_refused : List Opt → Bool
any_refused [] = false
any_refused (o ∷ opts) = is_refused o || any_refused opts

abbrev stays_attached : List Opt → Bool
stays_attached [] = false
stays_attached (nodetach ∷ opts) = true
stays_attached (o ∷ opts) = stays_attached opts

abbrev or_else {ℓ} : {A : Type ℓ} → Option A → A → A
or_else none before = before
or_else (some a) before = a

-- What the last option of a kind gives; where there is none, what was there before.
abbrev last_of {ℓ} : {A : Type ℓ} → (Opt → Option A) → A → List Opt → A
last_of kind before [] = before
last_of kind before (o ∷ opts) = last_of kind (or_else (kind o) before) opts

abbrev credentials_of : Opt → Option String
credentials_of (credentials_file path) = some path
credentials_of o = none

abbrev device_of : Opt → Option String
device_of (dev_file path) = some path
device_of o = none

abbrev cloud_of : Opt → Option String
cloud_of (cloud_file path) = some path
cloud_of o = none

abbrev level_of : LogLevels → Opt → Option ℤ
level_of levels (log name) = some (parse_log_level levels name)
level_of levels o = none

-- The settings that the options choose, from others on.
abbrev chosen : LogLevels → List Opt → Settings → Settings
chosen levels seen s = record s {
  log_level = last_of (level_of levels) s.log_level seen;
  credentials_path = last_of credentials_of s.credentials_path seen;
  device_path = last_of device_of s.device_path seen;
  cloud_path = last_of cloud_of s.cloud_path seen;
  detach = if stays_attached seen then false else s.detach;
}

abbrev pub described : LogLevels → List Opt → ℤ → Settings → Option Settings
described levels opts remaining s =
    let seen = before_help opts in
    if any_refused seen
    then none
    else if asks_for_help opts
    then some (record (chosen levels seen s) { help = true })
    else if ltb_ℤ (pos 0) remaining
    then none
    else some (chosen levels seen s)

abbrev answer : ℤ × Settings → Option Settings
answer (rc, s) = if is_neg rc then none else some s

module _ (levels : LogLevels) where
  level_sign : (name : String) → is_neg (parse_log_level levels name) ≡ not (is_level name)
  unfolding parse_log_level
  level_sign name = ground arith

  parse_args-described :
      (opts : List Opt) (remaining : ℤ) (s : Settings)
      → answer (parse_args levels opts remaining s) ≡ described levels opts remaining s
  unfolding parse_args
  parse_args-described [] remaining s = ground arith
  parse_args-described (credentials_file path ∷ opts) remaining s =
      parse_args-described opts remaining (record s { credentials_path = path })
  parse_args-described (dev_file path ∷ opts) remaining s =
      parse_args-described opts remaining (record s { device_path = path })
  parse_args-described (cloud_file path ∷ opts) remaining s =
      parse_args-described opts remaining (record s { cloud_path = path })
  parse_args-described (log name ∷ opts) remaining s =
      let s' : Settings = record s { log_level = parse_log_level levels name } in
      let ih = parse_args-described opts remaining s' in
      let sign = level_sign name in
      elim (Bool-cases (is_neg (parse_log_level levels name))) [
        | inl e ↦ let refused : not (is_level name) ≡ true = cc in rw (e, refused) refl
        | inr e ↦ let known : not (is_level name) ≡ false = cc in rw (e, known) ih
      ]
  parse_args-described (nodetach ∷ opts) remaining s =
      let ih = parse_args-described opts remaining (record s { detach = false }) in
      elim (Bool-cases (stays_attached (before_help opts))) [
        | inl e ↦ ih ∙ rw e refl
        | inr e ↦ ih ∙ rw e refl
      ]
  parse_args-described (Opt.help ∷ opts) remaining s = refl
  parse_args-described (unknown ∷ opts) remaining s = refl

  -- The settings are those that the options before the first --help describe as a whole: each path and
  -- the log level is what the last option of its kind gives, or its default where there is none; the
  -- program detaches unless --nodetach is among them; and help is set if there is a --help. There
  -- are no settings if one of these options is unknown or a level is none of the four, or if, without
  -- --help, an argument is left.
  pub settings_load-described :
      (opts : List Opt) (remaining : ℤ)
      → settings_load levels opts remaining
        ≡ described levels opts remaining (default_settings levels)
  unfolding settings_load
  settings_load-described opts remaining =
      parse_args-described opts remaining (default_settings levels)
