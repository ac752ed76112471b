-- ===== src/Properties/Update/Kept.antt =====
-- What src/properties.c does to the keys of an event whose flags the cloud has taken away.
use knot_virtualthing.Prelude.{ℕ, ℤ, pos, String, true, false, ◌≡◌, List, [], ◌∷◌}
use knot_virtualthing.Protocol.{ValueType, KnotEvent}
use knot_virtualthing.Storage.{LSettings, System, Store}
use knot_virtualthing.Storage.Access.{storage_has_unit}
use knot_virtualthing.Properties.Update.{
  event_time_sec, event_change, event_lower_threshold, event_upper_threshold, update_key,
  update_event_data_item, and_then,
}

abbrev pub HasAll : (l : LSettings) → ℕ → String → List String → Store l → Type 0
HasAll l fd group [] st = Unit
HasAll l fd group (k ∷ ks) st = (storage_has_unit l fd group k st ≡ true) × HasAll l fd group ks st

module _ (l : LSettings) (sys : System) where
  update_key_kept :
      (write : Store l → ℤ × Store l) (fd : ℕ) (group key : String) (st : Store l)
      → storage_has_unit l fd group key st ≡ true
      → update_key l sys false write fd group key st ≡ (pos 0, st)
  unfolding update_key
  update_key_kept write fd group key st h = rw h

  -- Where the file holds the four keys of an event and the cloud sends an event without flags,
  -- update_event_data_item succeeds and changes nothing: all four keys stay in the file.
  pub update_event_kept :
      (fd : ℕ) (group : String) (t : ValueType) (event : KnotEvent) (st : Store l)
      → HasAll l fd group
          (event_time_sec ∷ event_change ∷ event_lower_threshold ∷ event_upper_threshold ∷ [])
          st
      → event.event_flags.time ≡ false
      → event.event_flags.change ≡ false
      → event.event_flags.lower_threshold ≡ false
      → event.event_flags.upper_threshold ≡ false
      → update_event_data_item l sys fd group t event st ≡ (pos 0, st)
  unfolding update_event_data_item and_then
  update_event_kept fd group t event st (a, (b, (c, (d, u)))) p q r s =
      rw (p, q, r, s, update_event_data_item)
        (rw (
          update_key_kept _ fd group event_time_sec st a,
          update_key_kept _ fd group event_change st b,
          update_key_kept _ fd group event_lower_threshold st c,
          update_key_kept _ fd group event_upper_threshold st d,
        ))
