-- ===== src/Sm/Quiet.antt =====
-- What src/sm.c does to the rest of the program before the cloud has authenticated the thing.
use knot_virtualthing.Prelude.{
  ℕ, false, ◌≡◌, ◌≢◌, refl, ◌∙◌, List, [], ◌∷◌, inl, inr, Bool-cases, is_neg, is_nonzero,
}
use knot_virtualthing.Sm.{
  Device, State, disconnected, auth, register, config, online, unregister, error, Event, ready,
  not_ready, timeout, auth_ok, auth_not_ok, reg_ok, reg_not_ok, unreg_req, reg_perm, Machine,
  sm_input_event, run, first_state,
}
use knot_virtualthing.Sm.Traces.{step_needs_auth_ok, Occurs, is_authenticated}

-- `seen` is something of the device that only the two publishing functions, the update of the
-- configuration and the start and stop of the events change, such as the data that was published.
pub record QuietRules {W P A : Type 0} (d : Device W P) (seen : W → A) : Type 0 where
  pub create : (n : ℕ) (w : W) → seen (d.msg_timeout_create n w) ≡ seen w
  pub modify : (n : ℕ) (w : W) → seen (d.msg_timeout_modify n w) ≡ seen w
  pub remove : (w : W) → seen (d.msg_timeout_remove w) ≡ seen w
  pub generate : (w : W) → seen (d.generate_thing_id w) ≡ seen w
  pub read : (w : W) → seen (d.start_read_cloud w).1 ≡ seen w
  pub store : (p : P) (w : W) → seen (d.store_credentials_on_file p w).1 ≡ seen w
  pub clear : (w : W) → seen (d.clear_credentials_on_file w).1 ≡ seen w
  pub schema : (w : W) → seen (d.check_schema_change w).1 ≡ seen w
  pub send_register : (w : W) → seen (d.send_register_request w).1 ≡ seen w
  pub send_auth : (w : W) → seen (d.send_auth_request w).1 ≡ seen w
  pub send_config : (w : W) → seen (d.send_config w).1 ≡ seen w

module _ {W P A : Type 0} {d : Device W P} {seen : W → A} (r : QuietRules d seen) where
  open r use {
    create, modify, remove, generate, read, store, clear, schema, send_register, send_auth,
    send_config,
  }

  pub quiet_step :
      (s : State) (e : Event) (p : P) (w : W)
      → is_authenticated s ≡ false
      → e ≢ auth_ok
      → seen (sm_input_event d e p (record { current = s; world = w })).world ≡ seen w
  unfolding sm_input_event
  quiet_step disconnected ready p w h k = elim (Bool-cases (is_nonzero (d.has_thing_token w))) [
    | inl e ↦ rw (e, first_state) (simp (create, send_auth, read))
    | inr e ↦ rw (e, first_state) (simp (create, send_register, read, generate))
  ]
  quiet_step disconnected _ p w h k = refl
  quiet_step auth auth_ok p w h k = absurd (k refl)
  quiet_step auth not_ready p w h k = remove w
  quiet_step auth auth_not_ok p w h k = simp (clear, remove)
  quiet_step auth unreg_req p w h k = simp (clear, remove)
  quiet_step auth timeout p w h k = simp (modify, send_auth)
  quiet_step auth _ p w h k = refl
  quiet_step register not_ready p w h k = remove w
  quiet_step register reg_ok p w h k =
      elim (Bool-cases (is_neg (d.store_credentials_on_file p (d.msg_timeout_remove w)).0)) [
        | inl e ↦ rw e (simp (store, remove))
        | inr e ↦ rw e (simp (create, send_auth, store, remove))
      ]
  quiet_step register reg_not_ok p w h k = simp (read, generate)
  quiet_step register timeout p w h k = simp (modify, send_register)
  quiet_step register _ p w h k = refl
  quiet_step config e p w h k = cc
  quiet_step online e p w h k = cc
  quiet_step unregister reg_perm p w h k = simp (create, send_register, read, generate)
  quiet_step unregister _ p w h k = refl
  quiet_step error _ p w h k = refl

  -- From a state other than CONFIG and ONLINE, a session without EVT_AUTH_OK publishes nothing: it
  -- leaves `seen` as it was, for every `seen` that keeps the rules above.
  pub run_quiet :
      (es : List (Event × P)) (m : Machine W)
      → is_authenticated m.current ≡ false
      → ¬ Occurs auth_ok es
      → seen (run d es m).world ≡ seen m.world
  unfolding run
  run_quiet [] m h k = refl
  run_quiet ((e, p) ∷ es) m h k =
      elim (Bool-cases (is_authenticated (sm_input_event d e p m).current)) [
        | inl yes' ↦ absurd (k (inl (step_needs_auth_ok d e p m h yes')))
        | inr still ↦
            run_quiet es (sm_input_event d e p m) still (λ o. k (inr o))
            ∙ quiet_step m.current e p m.world h (λ q. k (inl q))
      ]
