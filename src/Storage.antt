-- ===== src/Storage.antt =====
-- src/storage.c: settings files behind file descriptors. The library that reads and writes the
-- settings (l_settings of ell) and the system calls are parameters; their records are in the child
-- `Library`. The proofs are in the other children.
mod Library
pub mod Saved
pub mod Held
pub mod Foreach
pub mod Written
pub mod Access
pub use Library.{LSettings, SettingsLaws, NumberLaws, System, Number}
use knot_virtualthing.Prelude.{
  ℕ, zero, suc, ◌+◌, ℤ, pos, negsuc, String, Bool, true, false, not, Option, none, some, List, [],
  ◌∷◌, ◌++◌, ◌==◌, str_eq, codes, is_prefix, is_digit, ◌&&◌, ◌||◌, is_neg, if◌then◌else◌,
}

-- `-e` for an errno value
abbrev pub minus : ℕ → ℤ
minus zero = pos 0
minus (suc e) = negsuc e

abbrev pub enoent : ℕ
enoent = 2

abbrev pub eio : ℕ
eio = 5

abbrev pub eexist : ℕ
eexist = 17

abbrev pub einval : ℕ
einval = 22

-- What src/storage.c and the system keep: `storage_list`, the contents of the files, the open
-- descriptors with their paths, the directories that were made, and the number of system calls so
-- far, by which `System` answers.
pub record Store (l : LSettings) : Type 0 where
  pub storage_list : ℕ → Option l.S
  pub files : String → l.Text
  pub open_files : ℕ → Option String
  pub dirs : List (List ℕ)
  pub calls : ℕ

abbrev pub update {ℓ} : {A : Type ℓ} → (ℕ → A) → ℕ → A → ℕ → A
update f k v j = if k == j then v else f j

-- the parts of a path that a '/' closes, each without it
unfoldable pub segments : List ℕ → List ℕ → List (List ℕ)
segments seg [] = []
segments seg (c ∷ cs) =
    let closed = seg ∷ segments [] cs in
    let on = segments (seg ++ c ∷ []) cs in if c == b'/' then closed else on

-- strchr(filename, '/') + 1
unfoldable pub after_slash : List ℕ → List ℕ
after_slash [] = []
after_slash (c ∷ cs) = let on = after_slash cs in if c == b'/' then cs else on

module _ (l : LSettings) (sys : System) where
  -- One system call is over.
  abbrev pub tick : Store l → Store l
  tick st = record st { calls = st.calls + 1 }

  -- The loop of make_dirs over the closed parts; `dir` is the buffer.
  unfoldable pub make_each : List (List ℕ) → List ℕ → Store l → ℤ × Store l
  make_each [] dir st = (pos 0, st)
  make_each ([] ∷ segs) dir st = make_each segs dir st
  make_each ((c ∷ seg) ∷ segs) dir st =
      let dir' = dir ++ (c ∷ seg) ++ b'/' ∷ [] in
      let e = sys.errno st.calls in
      let made = make_each segs dir' (record st { calls = st.calls + 1; dirs = dir' ∷ st.dirs }) in
      let there = make_each segs dir' (tick st) in
      if e == 0 then made else if e == eexist then there else (pos e, tick st)

  unfoldable pub make_dirs : String → Store l → ℤ × Store l
  unfolding make_each segments after_slash
  make_dirs filename st =
      if (sys.errno st.calls == 0) && sys.is_regular st.calls
      then (pos 0, tick st)
      else make_each (segments [] (after_slash (codes filename))) (b'/' ∷ []) (tick st)

  -- ftruncate empties the file, pwrite fills it.
  abbrev pub write_file : ℕ → l.Text → Store l → Store l
  write_file fd text st = elim (st.open_files fd) [
    | none ↦ tick st
    | some path ↦ record st {
      calls = st.calls + 1;
      files = λ p. if str_eq path p then text else st.files p;
    }
  ]

  unfoldable pub save_settings : ℕ → l.S → Store l → ℤ × Store l
  save_settings fd settings st =
      let e = sys.errno st.calls in
      let st1 = write_file fd l.empty_text st in
      let e' = sys.errno st1.calls in
      if not (e == 0)
      then (minus e, tick st)
      else if not (e' == 0)
      then (minus e', tick st1)
      else (pos 0, write_file fd (l.to_data settings) st1)

  -- The function after make_dirs has answered.
  unfoldable pub open_at : String → ℤ × Store l → ℤ × Store l
  open_at pathname (err, st) =
      let e = sys.errno st.calls in
      let fd = sys.descriptor st.calls in
      if is_neg err then (err, st) else if not (e == 0) then (minus e, tick st) else (
        pos fd,
        record st {
          calls = st.calls + 1;
          open_files = update st.open_files fd (some pathname);
          storage_list = update st.storage_list fd (some (l.load (st.files pathname)));
        },
      )

  unfoldable pub storage_open : String → Store l → ℤ × Store l
  unfolding make_dirs open_at
  storage_open pathname st = open_at pathname (make_dirs pathname st)

  -- `close` is answered by the system like every call.
  unfoldable pub storage_close : ℕ → Store l → ℤ × Store l
  storage_close fd st = elim (st.storage_list fd) [
    | none ↦ (minus enoent, st)
    | some settings ↦ (
      if sys.errno st.calls == 0 then pos 0 else negsuc 0,
      record st {
        calls = st.calls + 1;
        storage_list = update st.storage_list fd none;
        open_files = update st.open_files fd none;
      },
    )
  ]
