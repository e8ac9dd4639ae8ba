-- ===== src/Db/Index/Rounds.antt =====
-- db/memory.go: what one round of each loop over the indexes does to the references of an index.
use alma_backend_task.Prelude.{
  ℕ, ◌+◌, ◌-◌, ◌≤◌, String, ◌≡◌, refl, ◌≢◌, Bool, true, false, Option, none, some, ok, ite, arith,
  String-discrete, >>=-eq-ok,
}
use alma_backend_task.Value.{Value, Value-discrete, strs, go_eq}
use alma_backend_task.Db.Types.{Record, Index, Outcome, at}
use alma_backend_task.Db.Index.{
  append_to_index, remove_from_index, add_field, drop_field, move_unless, move_pk, move_values,
  move_field,
}
use alma_backend_task.Db.Index.Refs.{refs, hit, refs-append_pk, refs-remove_pk}

-- 1 if the field holds the value.
abbrev pub field_weight : Option Value → Value → ℕ
field_weight none v = 0
field_weight (some w) v = ite (Value-discrete w v) 1 0

-- 1 if there is a record and its field holds the value.
abbrev pub weight : Option Record → String → Value → ℕ
weight none f v = 0
weight (some r) f v = field_weight (at f r) v

go_eq-eq-ok :
    (a b : Value) {c : Bool}
    → ◌≡◌ {A = Outcome Bool} (go_eq a b) (ok c)
    → c ≡ ite (Value-discrete a b) true false
unfolding go_eq
go_eq-eq-ok (strs ss) (strs ts) h = cc
go_eq-eq-ok a b h = cc

module _ (pk q : String) (v : Value) (idx : Index) where
  append-refs :
      (w : Value) {idx' : Index}
      → append_to_index w pk idx ≡ ok idx'
      → refs idx' v q ≡ refs idx v q + ite (String-discrete pk q) (field_weight (some w) v) 0
  unfolding append_to_index hit
  append-refs w h = ground (arith, refs-append_pk w v pk q idx)

  remove-refs :
      (w : Value) {idx' : Index}
      → remove_from_index w pk idx ≡ ok idx'
      → refs idx' v q ≡ refs idx v q - ite (String-discrete pk q) (field_weight (some w) v) 0
  unfolding remove_from_index hit
  remove-refs w h = ground (arith, refs-remove_pk w v pk q idx)

module _ (pk q : String) (v : Value) (idx : Index) (old new : Value) where
  move_unless-refs :
      (same : Bool) {idx' : Index}
      → same ≡ ite (Value-discrete old new) true false
      → move_unless same old new pk idx ≡ ok idx'
      → field_weight (some old) v ≤ refs idx v pk
      → refs idx' v q + ite (String-discrete pk q) (field_weight (some old) v) 0
        ≡ refs idx v q + ite (String-discrete pk q) (field_weight (some new) v) 0
  unfolding move_unless
  move_unless-refs true e h listed = ground arith
  move_unless-refs false e h listed =
      let (idx₁, removed, appended) = >>=-eq-ok (remove_from_index old pk idx) _ h in
      ground (arith, remove-refs pk q v idx old removed, append-refs pk q v idx₁ new appended)

  -- A key moves from the old value to the new one, if it was listed under the old one.
  pub move_pk-refs :
      {idx' : Index}
      → move_pk old new pk idx ≡ ok idx'
      → field_weight (some old) v ≤ refs idx v pk
      → refs idx' v q + ite (String-discrete pk q) (field_weight (some old) v) 0
        ≡ refs idx v q + ite (String-discrete pk q) (field_weight (some new) v) 0
  unfolding move_pk
  move_pk-refs h listed =
      let (same, e, h') = >>=-eq-ok (go_eq old new) _ h in
      move_unless-refs same (go_eq-eq-ok old new e) h' listed

-- The field of an existing record after a merge.
abbrev pub or_else : Option Value → Option Value → Option Value
or_else none old = old
or_else (some new) old = some new

move_values-refs :
    (pk q : String) (v : Value) (idx : Index) (new old : Option Value) {idx' : Index}
    → move_values new old pk idx ≡ ok idx'
    → old ≢ none
    → field_weight old v ≤ refs idx v pk
    → refs idx' v q + ite (String-discrete pk q) (field_weight old v) 0
      ≡ refs idx v q + ite (String-discrete pk q) (field_weight (or_else new old) v) 0
unfolding move_values
move_values-refs pk q v idx none old h full listed = ground arith
move_values-refs pk q v idx (some new) none h full listed = absurd (full refl)
move_values-refs pk q v idx (some new) (some old) h full listed =
    move_pk-refs pk q v idx old new h listed

module _ (pk q f : String) (v : Value) (idx : Index) where
  pub add_field-refs :
      (r : Record) {idx' : Index}
      → add_field r pk f idx ≡ ok idx'
      → refs idx' v q ≡ refs idx v q + ite (String-discrete pk q) (weight (some r) f v) 0
  unfolding add_field
  add_field-refs r h = grind (arith, append-refs pk q v idx)

  pub drop_field-refs :
      (r : Record) {idx' : Index}
      → drop_field r pk f idx ≡ ok idx'
      → refs idx' v q ≡ refs idx v q - ite (String-discrete pk q) (weight (some r) f v) 0
  unfolding drop_field
  drop_field-refs r h = grind (arith, remove-refs pk q v idx)

  -- The record must have held the field, or the index keeps no reference for the new value.
  pub move_field-refs :
      (existing r : Record) {idx' : Index}
      → move_field existing r pk f idx ≡ ok idx'
      → at f existing ≢ none
      → weight (some existing) f v ≤ refs idx v pk
      → refs idx' v q + ite (String-discrete pk q) (weight (some existing) f v) 0
        ≡ refs idx v q
          + ite (String-discrete pk q) (field_weight (or_else (at f r) (at f existing)) v) 0
  unfolding move_field
  move_field-refs existing r h full listed =
      move_values-refs pk q v idx (at f r) (at f existing) h full listed
