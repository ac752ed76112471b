-- ===== src/Device/Polling.antt =====
-- src/device.c: the creation of the pollings of the data items.
use knot_virtualthing.Prelude.{
  ℕ, ℤ, pos, negsuc, true, false, ◌≡◌, refl, ◌∙◌, ap, List, [], ◌∷◌, is_nonzero, if◌then◌else◌,
  arith, Option-cases, Bool-cases, inl, inr, is_neg, ◌⊎◌,
}
use knot_virtualthing.Thing.{DataItem}
use knot_virtualthing.Thing.Calls.{Answers, Log}
use knot_virtualthing.Poll.{PollState, PollEntry, poll_create, poll_destroy, add_entry}
use knot_virtualthing.Poll.Timers.{live, Accounts, poll_create-Accounts, poll_destroy-live}

abbrev pub default_polling_interval : ℕ
default_polling_interval = 1

abbrev pub polled : List PollEntry → List ℤ
polled [] = []
polled (e ∷ es) = e.id ∷ polled es

-- the sensors of the items, pushed to the head one after the other
abbrev pub push_ids : List DataItem → List ℤ → List ℤ
push_ids [] q = q
push_ids (i ∷ items) q = push_ids items (i.sensor_id ∷ q)

module _ (ans : Answers) where
  -- l_hashmap_foreach with foreach_data_item_polling, from `rc` on
  unfoldable pub create_each : List DataItem → ℤ → Log × PollState → ℤ × (Log × PollState)
  create_each [] rc ls = (rc, ls)
  create_each (i ∷ items) rc ls =
      let (failed, ls') = poll_create ans default_polling_interval i.sensor_id ls in
      create_each items (if is_nonzero failed then negsuc 0 else rc) ls'

  unfoldable pub create_data_item_polling : List DataItem → Log × PollState → ℤ × (Log × PollState)
  unfolding create_each
  create_data_item_polling items ls =
      let (rc, ls') = create_each items (pos 0) ls in
      if is_nonzero rc then (rc, poll_destroy ls') else (rc, ls')

  create_each-Accounts :
      (items : List DataItem) (rc : ℤ) (ls : Log × PollState)
      → Accounts ls
      → Accounts (create_each items rc ls).1
  unfolding create_each
  create_each-Accounts [] rc ls h = h
  create_each-Accounts (i ∷ items) rc ls h =
      let (failed, ls') = poll_create ans default_polling_interval i.sensor_id ls in
      create_each-Accounts items (if is_nonzero failed then negsuc 0 else rc) ls'
        (poll_create-Accounts ans default_polling_interval i.sensor_id ls h)

  -- Where the creation of the pollings fails, no timer that was created is left: if the queue held
  -- exactly the live timers before it, no timer is live after it.
  pub polling_failed :
      (items : List DataItem) (ls : Log × PollState)
      → Accounts ls
      → is_nonzero (create_data_item_polling items ls).0 ≡ true
      → live (create_data_item_polling items ls).1.0 ≡ []
  unfolding create_data_item_polling
  polling_failed items ls h e = elim (Bool-cases (is_nonzero (create_each items (pos 0) ls).0)) [
    | inl n ↦
        rw (n, create_data_item_polling)
          (poll_destroy-live (create_each items (pos 0) ls).1
            (create_each-Accounts items (pos 0) ls h))
    | inr n ↦ ground arith
  ]

  failed_lem :
      (items : List DataItem) (rc : ℤ) (ls : Log × PollState)
      → is_nonzero rc ≡ true
      → is_nonzero (create_each items rc ls).0 ≡ true
  unfolding create_each
  failed_lem [] rc ls h = h
  failed_lem (i ∷ items) rc ls h =
      let (failed, ls') = poll_create ans default_polling_interval i.sensor_id ls in
      failed_lem items (if is_nonzero failed then negsuc 0 else rc) ls' (ground arith)

  created_lem :
      (id : ℤ) (ls : Log × PollState)
      → is_nonzero (poll_create ans default_polling_interval id ls).0 ≡ false
      → polled (poll_create ans default_polling_interval id ls).1.1.poll_entries
        ≡ id ∷ polled ls.1.poll_entries
  unfolding poll_create
  created_lem id (log, st) h = elim (Option-cases (ans.timer log)) [
    | inl e ↦ ground (arith, add_entry)
    | inr (t, e) ↦ rw (e, add_entry)
  ]

  each_lem :
      (items : List DataItem) (rc : ℤ) (ls : Log × PollState)
      → is_nonzero (create_each items rc ls).0 ≡ false
      → polled (create_each items rc ls).1.1.poll_entries
        ≡ push_ids items (polled ls.1.poll_entries)
  unfolding create_each
  each_lem [] rc ls h = refl
  each_lem (i ∷ items) rc ls h =
      let (failed, ls') = poll_create ans default_polling_interval i.sensor_id ls in
      elim (Bool-cases (is_nonzero failed)) [
        | inl n ↦
            let k : is_nonzero (create_each (i ∷ items) rc ls).0 ≡ true =
              failed_lem items (if is_nonzero failed then negsuc 0 else rc) ls' (ground arith) in
            cc
        | inr n ↦
            each_lem items (if is_nonzero failed then negsuc 0 else rc) ls' h
            ∙ ap (push_ids items) (created_lem i.sensor_id ls n)
      ]

  -- Where the creation of the pollings succeeds, every data item has one polling, in front of those
  -- that were there before.
  pub polling_created :
      (items : List DataItem) (ls : Log × PollState)
      → is_nonzero (create_data_item_polling items ls).0 ≡ false
      → polled (create_data_item_polling items ls).1.1.poll_entries
        ≡ push_ids items (polled ls.1.poll_entries)
  unfolding create_data_item_polling
  polling_created items ls h = elim (Bool-cases (is_nonzero (create_each items (pos 0) ls).0)) [
    | inl n ↦ ground arith
    | inr n ↦ rw (n, create_data_item_polling) (each_lem items (pos 0) ls n)
  ]

  each_code :
      (items : List DataItem) (rc : ℤ) (ls : Log × PollState)
      → (rc ≡ pos 0) ⊎ (rc ≡ negsuc 0)
      → let c = (create_each items rc ls).0 in (c ≡ pos 0) ⊎ (c ≡ negsuc 0)
  unfolding create_each
  each_code [] rc ls h = h
  each_code (i ∷ items) rc ls h =
      let (failed, ls') = poll_create ans default_polling_interval i.sensor_id ls in
      each_code items (if is_nonzero failed then negsuc 0 else rc) ls'
        (elim (Bool-cases (is_nonzero failed)) [ inl n ↦ rw n (inr refl) | inr n ↦ rw n h ])

  -- The creation of the pollings returns 0 or -1.
  polling_code :
      (items : List DataItem) (ls : Log × PollState)
      → let c = (create_data_item_polling items ls).0 in (c ≡ pos 0) ⊎ (c ≡ negsuc 0)
  unfolding create_data_item_polling
  polling_code items ls = elim (each_code items (pos 0) ls (inl refl)) [
    | inl e ↦ rw (e, create_data_item_polling) (inl refl)
    | inr e ↦ rw (e, create_data_item_polling) (inr refl)
  ]

  pub polling_sign :
      (items : List DataItem) (ls : Log × PollState)
      → is_nonzero (create_data_item_polling items ls).0
        ≡ is_neg (create_data_item_polling items ls).0
  polling_sign items ls = elim (polling_code items ls) [ inl e ↦ rw e refl | inr e ↦ rw e refl ]

  pub create_data_item_polling-Accounts :
      (items : List DataItem) (ls : Log × PollState)
      → Accounts ls
      → Accounts (create_data_item_polling items ls).1
  unfolding create_data_item_polling poll_destroy
  create_data_item_polling-Accounts items ls h =
      let a = create_each-Accounts items (pos 0) ls h in
      elim (Bool-cases (is_nonzero (create_each items (pos 0) ls).0)) [
        | inl n ↦
            rw (n, create_data_item_polling) (poll_destroy-live (create_each items (pos 0) ls).1 a)
        | inr n ↦ rw (n, create_data_item_polling) a
      ]
