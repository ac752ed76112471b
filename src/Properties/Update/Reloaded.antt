-- ===== src/Properties/Update/Reloaded.antt =====
-- src/properties.c: the schema that update_schema_data_item writes is the one that set_schema reads.
use knot_virtualthing.Prelude.{
  fd_of, sym, eq_iff, ℕ, ◌<◌, ℤ, pos, String, true, false, ◌≡◌, refl, ◌∙◌, ap, some, is_neg,
  is_nonzero, strlen, str_eq, ltb, arith, Bool-cases, inl, inr,
}
use knot_virtualthing.Protocol.{Schema, Knot}
use knot_virtualthing.Storage.{
  LSettings, SettingsLaws, NumberLaws, System, Store, storage_open, storage_close,
}
use knot_virtualthing.Storage.Saved.{files-storage_close}
use knot_virtualthing.Storage.Written.{Changed, changed, storage_open-loads}
use knot_virtualthing.Storage.Access.{
  storage_write_key_string, storage_write_key_int, storage_read_key_string, storage_read_key_int,
}
use knot_virtualthing.Properties.Load.{set_schema}
use knot_virtualthing.Properties.Update.{
  schema_sensor_name, schema_value_type, schema_unit, schema_type_id, and_then,
  update_schema_data_item,
}

-- The settings of a file hold the schema of a group.
pub record HoldsSchema (l : LSettings) (s : l.S) (group : String) (schema : Schema) : Type 0 where
  pub name : l.get_string s group schema_sensor_name ≡ some schema.name
  pub value_type : l.get_int s group schema_value_type ≡ some schema.value_type
  pub unit : l.get_int s group schema_unit ≡ some schema.unit
  pub type_id : l.get_int s group schema_type_id ≡ some schema.type_id

-- The numbers of a schema are values of the fields of knot_schema: an assignment does not change them.
pub record IsInFields (knot : Knot) (schema : Schema) : Type 0 where
  pub value_type : knot.to_value_type schema.value_type ≡ schema.value_type
  pub unit : knot.to_unit schema.unit ≡ schema.unit
  pub type_id : knot.to_type_id schema.type_id ≡ schema.type_id

module _ (l : LSettings) (sys : System) where
  and_then_lem :
      (r : ℤ × Store l) (next : Store l → ℤ × Store l)
      → is_neg (and_then l sys r next).0 ≡ false
      → (is_neg r.0 ≡ false) × (and_then l sys r next ≡ next r.1)
  unfolding and_then
  and_then_lem (rc, st) next h = elim (Bool-cases (is_neg rc)) [
    | inl e ↦ absurd (ground arith)
    | inr e ↦ (e, rw (e, and_then) refl)
  ]

  int-Changed :
      (fd : ℕ) (path group key : String) (v : ℤ) (s : l.S) (st : Store l)
      → st.storage_list fd ≡ some s
      → st.open_files fd ≡ some path
      → is_neg (storage_write_key_int l sys fd group key v st).0 ≡ false
      → Changed l sys
          (λ t. l.set_int t group key v)
          fd
          path
          st
          (storage_write_key_int l sys fd group key v st).1
  unfolding storage_write_key_int
  int-Changed fd path group key v s st a b h = changed l sys _ fd _ path s st a b h

  string-Changed :
      (fd : ℕ) (path group key v : String) (s : l.S) (st : Store l)
      → st.storage_list fd ≡ some s
      → st.open_files fd ≡ some path
      → is_neg (storage_write_key_string l sys fd group key v st).0 ≡ false
      → Changed l sys
          (λ t. l.set_string t group key v)
          fd
          path
          st
          (storage_write_key_string l sys fd group key v st).1
  unfolding storage_write_key_string
  string-Changed fd path group key v s st a b h = changed l sys _ fd _ path s st a b h

  four_writes :
      (laws : SettingsLaws l) (numbers : NumberLaws l) (fd : ℕ) (path group : String)
      (schema : Schema) (st st1 st2 st3 st4 : Store l)
      → Changed l sys (λ t. l.set_int t group schema_type_id schema.type_id) fd path st st1
      → Changed l sys (λ t. l.set_int t group schema_unit schema.unit) fd path st1 st2
      → Changed l sys (λ t. l.set_int t group schema_value_type schema.value_type) fd path st2 st3
      → Changed l sys (λ t. l.set_string t group schema_sensor_name schema.name) fd path st3 st4
      → HoldsSchema l (l.load (st4.files path)) group schema
  four_writes laws numbers fd path group schema st st1 st2 st3 st4 a b c d =
      let s1 : b.before ≡ a.after = cc in
      let s2 : c.before ≡ b.after = cc in
      let s3 : d.before ≡ c.after = cc in
      let here : str_eq group group ≡ true = (eq_iff group group).1 refl in
      let kept = λ (k : String) (e : str_eq schema_sensor_name k ≡ false).
        numbers.get_int-to_data d.after group k
        ∙ numbers.get_int-set_string d.before d.after group schema_sensor_name group k schema.name
            d.made e
        ∙ ap (λ (t : l.S). l.get_int t group k) s3 in
      let third = λ (k : String).
        numbers.get_int-set_int c.before c.after group schema_value_type group k schema.value_type
          c.made in
      let second = λ (k : String).
        numbers.get_int-set_int b.before b.after group schema_unit group k schema.unit b.made in
      let first = λ (k : String).
        numbers.get_int-set_int a.before a.after group schema_type_id group k schema.type_id
          a.made in
      rw d.file (record {
        name =
            laws.load-to_data d.after group schema_sensor_name
            ∙ laws.get-set d.before d.after group schema_sensor_name group schema_sensor_name
                schema.name d.made
            ∙ rw here refl;
        value_type = kept schema_value_type refl ∙ third schema_value_type ∙ rw here refl;
        unit =
            kept schema_unit refl
            ∙ third schema_unit
            ∙ rw here (ap (λ (t : l.S). l.get_int t group schema_unit) s2)
            ∙ second schema_unit
            ∙ rw here refl;
        type_id =
            kept schema_type_id refl
            ∙ third schema_type_id
            ∙ rw here (ap (λ (t : l.S). l.get_int t group schema_type_id) s2)
            ∙ second schema_type_id
            ∙ rw here (ap (λ (t : l.S). l.get_int t group schema_type_id) s1)
            ∙ first schema_type_id
            ∙ rw here refl;
      })

  -- A schema that is written without an error is in the file.
  schema_written :
      (laws : SettingsLaws l) (numbers : NumberLaws l) (fd : ℕ) (path group : String)
      (schema : Schema) (s : l.S) (st : Store l)
      → st.storage_list fd ≡ some s
      → st.open_files fd ≡ some path
      → is_neg (update_schema_data_item l sys fd group schema st).0 ≡ false
      → HoldsSchema l
          (l.load ((update_schema_data_item l sys fd group schema st).1.files path))
          group
          schema
  unfolding update_schema_data_item
  schema_written laws numbers fd path group schema s st a b h =
      let write = storage_write_key_int l sys fd group in
      let last = storage_write_key_string l sys fd group schema_sensor_name schema.name in
      let rest2 =
        λ (t : Store l). and_then l sys (write schema_value_type schema.value_type t) last in
      let rest1 = λ (t : Store l). and_then l sys (write schema_unit schema.unit t) rest2 in
      let w1 = write schema_type_id schema.type_id st in
      let (n1, e1) = and_then_lem w1 rest1 h in
      let c1 = int-Changed fd path group schema_type_id schema.type_id s st a b n1 in
      let w2 = write schema_unit schema.unit w1.1 in
      let (n2, e2) = and_then_lem w2 rest2 (ap (λ (r : ℤ × Store l). is_neg r.0) (sym e1) ∙ h) in
      let c2 =
        int-Changed fd path group schema_unit schema.unit c1.after w1.1 c1.listed c1.opened n2 in
      let w3 = write schema_value_type schema.value_type w2.1 in
      let (n3, e3) =
        and_then_lem w3 last (ap (λ (r : ℤ × Store l). is_neg r.0) (sym (e1 ∙ e2)) ∙ h) in
      let c3 =
        int-Changed fd path group schema_value_type schema.value_type c2.after w2.1 c2.listed
          c2.opened n3 in
      let c4 =
        string-Changed fd path group schema_sensor_name schema.name c3.after w3.1 c3.listed
          c3.opened (ap (λ (r : ℤ × Store l). is_neg r.0) (sym (e1 ∙ e2 ∙ e3)) ∙ h) in
      let all = e1 ∙ e2 ∙ e3 in
      rw all
        (four_writes laws numbers fd path group schema st w1.1 w2.1 w3.1 (last w3.1).1 c1 c2 c3 c4)

module _ (l : LSettings) (knot : Knot) where
  read_string :
      (fd : ℕ) (group key v : String) (s : l.S) (st : Store l)
      → st.storage_list fd ≡ some s
      → l.get_string s group key ≡ some v
      → storage_read_key_string l fd group key st ≡ some v
  unfolding storage_read_key_string
  read_string fd group key v s st a h = rw a h

  read_int :
      (fd : ℕ) (group key : String) (v : ℤ) (s : l.S) (st : Store l)
      → st.storage_list fd ≡ some s
      → l.get_int s group key ≡ some v
      → storage_read_key_int l fd group key st ≡ (pos 1, some v)
  unfolding storage_read_key_int
  read_int fd group key v s st a h = rw (a, storage_read_key_int) (rw h refl)

  set_schema_holds :
      (fd : ℕ) (group : String) (schema : Schema) (s : l.S) (st : Store l)
      → st.storage_list fd ≡ some s
      → HoldsSchema l s group schema
      → IsInFields knot schema
      → str_eq schema.name "" ≡ false
      → strlen schema.name < knot.data_name_len
      → is_nonzero (knot.schema_is_valid schema.type_id schema.value_type schema.unit) ≡ false
      → set_schema l knot fd st group ≡ (pos 0, some schema)
  unfolding set_schema
  set_schema_holds fd group schema s st a h fields named fits valid =
      let n = read_string fd group schema_sensor_name schema.name s st a h.name in
      let v = read_int fd group schema_value_type schema.value_type s st a h.value_type in
      let u = read_int fd group schema_unit schema.unit s st a h.unit in
      let t = read_int fd group schema_type_id schema.type_id s st a h.type_id in
      let short : ltb (strlen schema.name) knot.data_name_len ≡ true = ground arith in
      rw (n, set_schema)
        (rw (named, short, v, u, t, fields.value_type, fields.unit, fields.type_id, valid) refl)

module _ (l : LSettings) (laws : SettingsLaws l) (numbers : NumberLaws l) (sys : System)
    (knot : Knot) where
  -- A schema whose numbers are values of their fields, with a name that is not empty and fits, and that
  -- the protocol accepts, is read back: where update_schema_data_item writes it into a group without
  -- an error, the file is closed, and it is opened again, set_schema stores that schema, for every
  -- settings library that keeps the laws.
  pub schema_reloaded :
      (fd : ℕ) (path group : String) (schema : Schema) (s : l.S) (st : Store l)
      → st.storage_list fd ≡ some s
      → st.open_files fd ≡ some path
      → IsInFields knot schema
      → str_eq schema.name "" ≡ false
      → strlen schema.name < knot.data_name_len
      → is_nonzero (knot.schema_is_valid schema.type_id schema.value_type schema.unit) ≡ false
      → is_neg (update_schema_data_item l sys fd group schema st).0 ≡ false
      → is_neg
          (storage_open l sys path
            (storage_close l sys fd (update_schema_data_item l sys fd group schema st).1).1).0
        ≡ false
      → let (rc, st') =
          storage_open l sys path
            (storage_close l sys fd (update_schema_data_item l sys fd group schema st).1).1 in
        set_schema l knot (fd_of rc) st' group ≡ (pos 0, some schema)
  schema_reloaded fd path group schema s st a b fields named fits valid h n =
      let st1 = (update_schema_data_item l sys fd group schema st).1 in
      let st2 = (storage_close l sys fd st1).1 in
      let holds = schema_written l sys laws numbers fd path group schema s st a b h in
      let same = ap (λ (files : String → l.Text). files path) (files-storage_close l sys fd st1) in
      set_schema_holds l knot _ group schema (l.load (st2.files path)) _
        (storage_open-loads l sys path st2 n) (rw same holds) fields named fits valid
