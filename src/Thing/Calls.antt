-- ===== src/Thing/Calls.antt =====
-- The calls of the cloud library and of ell's timers, in the order in which they are made, with the
-- ends of the reply timer among them, and the answers, which may depend on all calls before.
use knot_virtualthing.Prelude.{ℕ, ℤ, String, Option, List}
use knot_virtualthing.Protocol.{Value, Config}

-- the function that a timer calls
pub data Callback : Type 0 where
  on_msg_timeout : Callback
  on_sensor_to : ℤ → ℕ → Callback
  on_poll_timeout : ℤ → ℕ → Callback

-- A timer is the number that its creation answered; `none` is NULL.
pub data Call : Type 0 where
  timeout_create : ℕ → Callback → Option ℕ → Call
  timeout_modify : Option ℕ → ℕ → Call
  timeout_remove : Option ℕ → Call
  -- The timer ends, and ell runs its callback.
  timeout_ended : Option ℕ → Call
  cloud_start : String → String → Call
  cloud_stop : Call
  cloud_read_start : String → Call
  cloud_register : String → String → Call
  cloud_auth : String → String → Call
  cloud_update_config : String → List Config → Call
  cloud_publish : String → ℤ → ℤ → Value → Call
  getrandom : ℕ → Call

-- The newest call comes first.
abbrev pub Log : Type 0
Log = List Call

-- The answers: the next timer (NULL where it cannot be made), the return code of a call of the cloud,
-- and the number that `l_getrandom` fills in.
pub record Answers : Type 0 where
  pub timer : Log → Option ℕ
  pub rc : Log → ℤ
  pub random : Log → ℕ
