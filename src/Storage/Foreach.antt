-- ===== src/Storage/Foreach.antt =====
-- src/storage.c: the two functions that walk over the groups of a file, which nothing in src/ calls.
-- `func` acts on any state `W`.
use knot_virtualthing.Prelude.{ℕ, ℤ, pos, String, ◌≡◌, refl, Option, none, some, List, [], ◌∷◌}
use knot_virtualthing.Storage.{LSettings, Store}

abbrev pub default_interval : ℤ
default_interval = pos 1000

abbrev pub or_kept : Option ℤ → ℤ → ℤ
or_kept none interval = interval
or_kept (some v) interval = v

-- `id`, `name` and `url` for the callback, where all three are there
abbrev pub when_slave :
    {W : Type 0} → Option ℤ → Option String → Option String → (ℤ → String → String → W → W) → W → W
when_slave (some id) (some name) (some url) func w = func id name url w
when_slave _ _ _ func w = w

-- `name`, `type` and `unit`
abbrev pub when_source :
    {W : Type 0}
    → Option String
    → Option String
    → Option String
    → (String → String → String → W → W)
    → W
    → W
when_source (some name) (some type) (some unit) func w = func name type unit w
when_source _ _ _ func w = w

module _ {W : Type 0} (l : LSettings) where
  unfoldable pub each_slave : l.S → (String → ℤ → String → String → W → W) → List String → W → W
  each_slave settings func [] w = w
  each_slave settings func (g ∷ gs) w = each_slave settings func gs (
      when_slave (l.get_int settings g "Id") (l.get_string settings g "Name")
        (l.get_string settings g "URL") (func g) w)

  unfoldable pub storage_foreach_slave :
      ℕ → (String → ℤ → String → String → W → W) → Store l → W → W
  unfolding each_slave
  storage_foreach_slave fd func st w = elim (st.storage_list fd) [
    | none ↦ w
    | some settings ↦ each_slave settings func (l.get_groups settings) w
  ]

  -- `interval` is declared outside the loop, and a group without the key leaves it as it is.
  unfoldable pub each_source :
      l.S → (String → String → String → String → ℤ → W → W) → List String → ℤ → W → W
  each_source settings func [] interval w = w
  each_source settings func (g ∷ gs) interval w =
      let interval' = or_kept (l.get_int settings g "PollingInterval") interval in
      each_source settings func gs interval' (
        when_source (l.get_string settings g "Name") (l.get_string settings g "Type")
          (l.get_string settings g "Unit") (λ name type unit w'. func g name type unit interval' w')
          w)

  unfoldable pub storage_foreach_source :
      ℕ → (String → String → String → String → ℤ → W → W) → Store l → W → W
  unfolding each_source
  storage_foreach_source fd func st w = elim (st.storage_list fd) [
    | none ↦ w
    | some settings ↦ each_source settings func (l.get_groups settings) default_interval w
  ]

  -- A source that has a name, a type and a unit but no interval of its own is given the interval of
  -- the group that stands before it.
  pub stale_interval :
      (settings : l.S) (func : String → String → String → String → ℤ → W → W) (g g' : String)
      (gs : List String) (name type unit : String) (v interval : ℤ) (w : W)
      → l.get_string settings g "Name" ≡ none
      → l.get_int settings g "PollingInterval" ≡ some v
      → l.get_int settings g' "PollingInterval" ≡ none
      → l.get_string settings g' "Name" ≡ some name
      → l.get_string settings g' "Type" ≡ some type
      → l.get_string settings g' "Unit" ≡ some unit
      → each_source settings func (g ∷ g' ∷ gs) interval w
        ≡ each_source settings func gs v (func g' name type unit v w)
  unfolding each_source
  stale_interval settings func g g' gs name type unit v interval w a b c d e f =
      rw (a, b, c, d, e, f, each_source) refl
