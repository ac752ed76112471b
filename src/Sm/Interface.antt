-- ===== src/Sm/Interface.antt =====
-- src/device.h, the part of it that src/sm.c calls. `W` is the state behind these functions and `P`
-- what an event's `void *user_data` points to. An `int` that a function returns is a `ℤ`.
use knot_virtualthing.Prelude.{ℕ, ℤ}

pub record Device (W P : Type 0) : Type 0 where
  pub has_thing_token : W → ℤ
  pub generate_thing_id : W → W
  pub start_read_cloud : W → ℤ × W
  pub store_credentials_on_file : P → W → ℤ × W
  pub clear_credentials_on_file : W → ℤ × W
  pub check_schema_change : W → ℤ × W
  pub send_register_request : W → ℤ × W
  pub send_auth_request : W → ℤ × W
  pub send_config : W → ℤ × W
  pub publish_data_list : P → W → W
  pub publish_data_all : W → W
  pub start_event : W → ℤ × W
  pub stop_event : W → W
  pub update_config : P → W → ℤ × W
  pub msg_timeout_create : ℕ → W → W
  pub msg_timeout_modify : ℕ → W → W
  pub msg_timeout_remove : W → W
