-- ===== src/Options.antt =====
-- src/settings.c: the settings of the program, from its command line. What getopt_long answers, call by
-- call, is the list of the options; the texts that are printed are left out.
pub mod Reference
use knot_virtualthing.Prelude.{
  ℕ, ℤ, pos, negsuc, String, Bool, true, false, Option, none, some, List, [], ◌∷◌, str_eq, is_neg,
  ltb_ℤ, if◌then◌else◌,
}
use knot_virtualthing.Storage.{minus, einval}

-- The priorities of ell's log, which are not negative.
pub record LogLevels : Type 0 where
  pub l_log_err : ℕ
  pub l_log_warning : ℕ
  pub l_log_info : ℕ
  pub l_log_debug : ℕ

-- What one call of getopt_long answers, with `optarg`; `unknown` is every other answer that is not
-- negative.
pub data Opt : Type 0 where
  credentials_file dev_file cloud_file log : String → Opt
  nodetach help unknown : Opt

-- struct settings
pub record Settings : Type 0 where
  pub log_level : ℤ
  pub credentials_path : String
  pub device_path : String
  pub cloud_path : String
  pub detach : Bool
  pub help : Bool

abbrev pub default_credentials_file_path : String
default_credentials_file_path = "/etc/knot/credentials.conf"

abbrev pub default_device_file_path : String
default_device_file_path = "/etc/knot/device.conf"

abbrev pub default_amqp_file_path : String
default_amqp_file_path = "/etc/knot/cloud.conf"

module _ (levels : LogLevels) where
  unfoldable pub parse_log_level : String → ℤ
  parse_log_level log_name =
      if str_eq log_name "error"
      then pos levels.l_log_err
      else if str_eq log_name "warn"
      then pos levels.l_log_warning
      else if str_eq log_name "info"
      then pos levels.l_log_info
      else if str_eq log_name "debug"
      then pos levels.l_log_debug
      else negsuc 0

  -- `remaining` is `argc - optind` after the last option.
  unfoldable pub parse_args : List Opt → ℤ → Settings → ℤ × Settings
  parse_args [] remaining s = if ltb_ℤ (pos 0) remaining then (minus einval, s) else (pos 0, s)
  parse_args (credentials_file optarg ∷ opts) remaining s =
      parse_args opts remaining (record s { credentials_path = optarg })
  parse_args (dev_file optarg ∷ opts) remaining s =
      parse_args opts remaining (record s { device_path = optarg })
  parse_args (cloud_file optarg ∷ opts) remaining s =
      parse_args opts remaining (record s { cloud_path = optarg })
  parse_args (log optarg ∷ opts) remaining s =
      let s' = record s { log_level = parse_log_level optarg } in
      let rest = parse_args opts remaining s' in
      if is_neg (parse_log_level optarg) then (minus einval, s') else rest
  parse_args (nodetach ∷ opts) remaining s = parse_args opts remaining (record s { detach = false })
  parse_args (help ∷ opts) remaining s = (pos 0, record s { help = true })
  parse_args (unknown ∷ opts) remaining s = (minus einval, s)

  abbrev pub default_settings : Settings
  default_settings = record {
    log_level = pos levels.l_log_info;
    credentials_path = default_credentials_file_path;
    device_path = default_device_file_path;
    cloud_path = default_amqp_file_path;
    detach = true;
    help = false;
  }

  -- `none` is NULL, after settings_free.
  unfoldable pub settings_load : List Opt → ℤ → Option Settings
  unfolding parse_args
  settings_load opts remaining =
      let (rc, s) = parse_args opts remaining default_settings in if is_neg rc then none else some s
