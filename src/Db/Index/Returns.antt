-- ===== src/Db/Index/Returns.antt =====
-- db/memory.go: a round of each loop over the indexes returns where the values that it meets can be
-- map keys.
use alma_backend_task.Prelude.{◌≡◌, refl, String, Bool, true, false, some, ok, Option, ite, arith}
use alma_backend_task.Value.{Value, Value-discrete, hashable, strs, go_eq}
use alma_backend_task.Db.Types.{Record, Index, Outcome, at}
use alma_backend_task.Db.Index.{
  append_to_index, remove_from_index, add_field, drop_field, move_unless, move_pk, move_values,
  move_field, append_pk, remove_pk,
}

-- The field holds a value that can be a map key.
abbrev pub HasKey : Option Value → Type 0
HasKey o = (v : Value) × (o ≡ some v) × (hashable v ≡ true)

module _ (pk f : String) (idx : Index) where
  pub add_field-returns :
      (r : Record) → HasKey (at f r) → (idx' : Index) × (add_field r pk f idx ≡ ok idx')
  unfolding add_field append_to_index
  add_field-returns r (v, e, k) = (append_pk v pk idx, ground arith)

  pub drop_field-returns :
      (r : Record) → HasKey (at f r) → (idx' : Index) × (drop_field r pk f idx ≡ ok idx')
  unfolding drop_field remove_from_index
  drop_field-returns r (v, e, k) = (remove_pk v pk idx, ground arith)

  move_unless-returns :
      (same : Bool) (old new : Value)
      → hashable old ≡ true
      → hashable new ≡ true
      → (idx' : Index) × (move_unless same old new pk idx ≡ ok idx')
  unfolding move_unless append_to_index remove_from_index
  move_unless-returns true old new h k = (idx, refl)
  move_unless-returns false old new h k = (append_pk new pk (remove_pk old pk idx), rw (h, k))

  go_eq-returns :
      (old new : Value)
      → hashable old ≡ true
      → ◌≡◌ {A = Outcome Bool} (go_eq old new) (ok (ite (Value-discrete old new) true false))
  unfolding go_eq hashable
  go_eq-returns (strs ss) new h = cc
  go_eq-returns _ new h = refl

  pub move_pk-returns :
      (old new : Value)
      → hashable old ≡ true
      → hashable new ≡ true
      → (idx' : Index) × (move_pk old new pk idx ≡ ok idx')
  unfolding move_pk
  move_pk-returns old new h h' =
      rw (go_eq-returns old new h)
        (move_unless-returns (ite (Value-discrete old new) true false) old new h h')

  pub move_field-returns :
      (existing r : Record)
      → HasKey (at f existing)
      → HasKey (at f r)
      → (idx' : Index) × (move_field existing r pk f idx ≡ ok idx')
  unfolding move_field move_values
  move_field-returns existing r (old, e, h) (new, e', h') =
      rw (e, e') (move_pk-returns old new h h')
