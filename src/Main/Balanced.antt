-- ===== src/Main/Balanced.antt =====
-- src/main.c: what main takes it gives back, on every path to its exit.
use knot_virtualthing.Prelude.{
  ℕ, suc, ◌⊎◌, ℤ, Bool, true, false, not, ◌≡◌, refl, some, List, [], ◌∷◌, is_nonzero, if◌then◌else◌,
  Bool-cases, Option-cases, inl, inr, arith,
}
use knot_virtualthing.Protocol.{Value}
use knot_virtualthing.Storage.{LSettings}
use knot_virtualthing.Modbus.Connect.{ModbusLibrary}
use knot_virtualthing.Device.World.{Outside}
use knot_virtualthing.Device.Start.{Process, device_start}
use knot_virtualthing.Options.{LogLevels, Opt, Settings, settings_load}
use knot_virtualthing.Main.{
  MainCall, settings_new, settings_free, main_init, main_exit, conf_files_new, conf_files_free,
  daemon, destroy, log_enable, start, MainSystem, Outcome, exit_success, exit_failure,
  set_device_settings, detach_daemon, main_started, main_loaded, main,
}

abbrev pub is_settings_new : MainCall → Bool
is_settings_new settings_new = true
is_settings_new c = false

abbrev pub is_settings_free : MainCall → Bool
is_settings_free settings_free = true
is_settings_free c = false

abbrev pub is_main_init : MainCall → Bool
is_main_init main_init = true
is_main_init c = false

abbrev pub is_main_exit : MainCall → Bool
is_main_exit main_exit = true
is_main_exit c = false

abbrev pub is_conf_files_new : MainCall → Bool
is_conf_files_new conf_files_new = true
is_conf_files_new c = false

abbrev pub is_conf_files_free : MainCall → Bool
is_conf_files_free conf_files_free = true
is_conf_files_free c = false

abbrev pub is_daemon : MainCall → Bool
is_daemon daemon = true
is_daemon c = false

abbrev pub is_destroy : MainCall → Bool
is_destroy destroy = true
is_destroy c = false

-- device_start with the code 0
abbrev pub is_start : MainCall → Bool
is_start (start err) = not (is_nonzero err)
is_start c = false

-- how many of the calls pass a test
abbrev pub count : (MainCall → Bool) → List MainCall → ℕ
count test [] = 0
count test (c ∷ log) = if test c then suc (count test log) else count test log

-- Settings, paths and the main loop are given back as often as they were taken; and so is the device,
-- unless the exit code is a failure and daemon was called.
pub record IsBalanced (code : ℕ) (log : List MainCall) : Type 0 where
  pub settings_freed : count is_settings_free log ≡ count is_settings_new log
  pub paths_freed : count is_conf_files_free log ≡ count is_conf_files_new log
  pub loop_ended : count is_main_exit log ≡ count is_main_init log
  pub device_destroyed :
      (count is_destroy log ≡ count is_start log)
      ⊎ ((code ≡ exit_failure) × (count is_daemon log ≡ 1))

-- settings_load and settings_free alone
early-IsBalanced : (code : ℕ) → IsBalanced code (settings_free ∷ settings_new ∷ [])
early-IsBalanced code = record {
  settings_freed = refl;
  paths_freed = refl;
  loop_ended = refl;
  device_destroyed = inl refl;
}

module _ {l : LSettings} (o : Outside l) (lib : ModbusLibrary) (levels : LogLevels)
    (sys : MainSystem o) where
  IsBalanced-at :
      (r r' : Outcome o lib levels sys) → IsBalanced r.0 r.1.0 → r ≡ r' → IsBalanced r'.0 r'.1.0
  IsBalanced-at r r' b e = rw (← e) b

  main_started-IsBalanced :
      (settings : Settings) (err level : ℤ) (p : Process o)
      → let log = conf_files_new ∷ log_enable level ∷ main_init ∷ settings_new ∷ [] in
        let r = main_started o lib levels sys settings err log p in IsBalanced r.0 r.1.0
  unfolding main_started
  main_started-IsBalanced settings err level p = elim (Bool-cases (is_nonzero err)) [
    | inl e ↦
        rw (e, main_started)
          (record {
            settings_freed = refl;
            paths_freed = refl;
            loop_ended = refl;
            device_destroyed = inl (rw e refl);
          })
    | inr e ↦ elim (Bool-cases settings.detach) [
      | inr d ↦
          rw (e, d, main_started)
            (record {
              settings_freed = refl;
              paths_freed = refl;
              loop_ended = refl;
              device_destroyed = inl (rw e refl);
            })
      | inl d ↦ elim (Bool-cases (is_nonzero (detach_daemon sys))) [
        | inl f ↦
            rw (e, d, f, main_started)
              (record {
                settings_freed = refl;
                paths_freed = refl;
                loop_ended = refl;
                device_destroyed = inr (refl, refl);
              })
        | inr f ↦
            rw (e, d, f, main_started)
              (record {
                settings_freed = refl;
                paths_freed = refl;
                loop_ended = refl;
                device_destroyed = inl (rw e refl);
              })
      ]
    ]
  ]

  main_loaded-IsBalanced :
      (junk : Value) (settings : Settings) (p : Process o) (code : ℕ) (log : List MainCall)
      (p' : Process o)
      → main_loaded o lib levels sys junk settings p ≡ some (code, (log, p'))
      → IsBalanced code log
  unfolding main_loaded
  main_loaded-IsBalanced junk settings p code log p' h = elim (Bool-cases settings.help) [
    | inl a ↦
        let same : (exit_success, (settings_free ∷ settings_new ∷ [], p)) ≡ (code, (log, p')) =
          ground (arith, a) in
        IsBalanced-at _ _ (early-IsBalanced exit_success) same
    | inr a ↦ elim (Bool-cases sys.l_main_init) [
      | inr b ↦
          let same : (exit_failure, (settings_free ∷ settings_new ∷ [], p)) ≡ (code, (log, p')) =
            ground (arith, a, b) in
          IsBalanced-at _ _ (early-IsBalanced exit_failure) same
      | inl b ↦ elim (Option-cases (device_start o lib junk (set_device_settings settings) p)) [
        | inl e ↦ absurd (ground (arith, a, b, e))
        | inr ((err, p1), e) ↦
            let start_log =
              conf_files_new ∷ log_enable settings.log_level ∷ main_init ∷ settings_new ∷ [] in
            let same : main_started o lib levels sys settings err start_log p1 ≡ (code, (log, p')) =
              ground (arith, a, b, e) in
            IsBalanced-at _ _ (main_started-IsBalanced settings err settings.log_level p1) same
      ]
    ]
  ]

  -- Every run of main that reaches its exit, whatever fails on the way, has freed the settings and the
  -- paths of the files as often as it has made them, and has left the main loop as often as it has
  -- made it; and it has destroyed the device as often as the device has started, unless daemon was
  -- called and the exit code is a failure.
  pub main-IsBalanced :
      (junk : Value) (opts : List Opt) (remaining : ℤ) (p : Process o) (code : ℕ)
      (log : List MainCall) (p' : Process o)
      → main o lib levels sys junk opts remaining p ≡ some (code, (log, p'))
      → IsBalanced code log
  unfolding main
  main-IsBalanced junk opts remaining p code log p' h =
      elim (Option-cases (settings_load levels opts remaining)) [
        | inl e ↦
            let same : (exit_failure, (settings_free ∷ settings_new ∷ [], p)) ≡ (code, (log, p')) =
              ground (arith, e) in
            IsBalanced-at _ _ (early-IsBalanced exit_failure) same
        | inr (settings, e) ↦ main_loaded-IsBalanced junk settings p code log p' (ground (arith, e))
      ]
