-- ===== src/Db/Index/Distinct.antt =====
-- db/memory.go: the entries of an index, over a round of each loop.
use alma_backend_task.Prelude.{
  String, ◌≡◌, Bool, true, false, Option, none, some, List, [], ◌∷◌, ok, >>=-eq-ok, String-discrete,
  erase, Bool-cases, Option-cases, inl, inr, if◌then◌else◌, subst,
}
use alma_backend_task.GoMap
use alma_backend_task.GoMap.Distinct.{IsMap, put-IsMap, delete-IsMap}
use alma_backend_task.Value.{Value, Value-discrete, hashable, go_eq}
use alma_backend_task.Db.Types.{Record, Index, Outcome, at}
use alma_backend_task.Db.Index.{
  entry, contains, append_pk, delete_if_empty, remove_pk, append_to_index, remove_from_index,
  add_field, drop_field, move_unless, move_pk, move_values, move_field,
}

abbrev pub IsIndex : Index → Type 0
IsIndex = IsMap Value-discrete

append_pk-IsIndex :
    (v : Value) (pk : String) (idx : Index) → IsIndex idx → IsIndex (append_pk v pk idx)
unfolding append_pk
append_pk-IsIndex v pk idx h = put-IsMap Value-discrete v _ idx h

delete_if_empty-IsIndex :
    (v : Value) (pks : List String) (idx : Index)
    → IsIndex idx
    → IsIndex (delete_if_empty v pks idx)
delete_if_empty-IsIndex v [] idx h = delete-IsMap Value-discrete v idx h
delete_if_empty-IsIndex v (p ∷ ps) idx h = h

erased-IsIndex :
    (b : Bool) (v : Value) (pks : List String) (idx : Index)
    → IsIndex idx
    → IsIndex (if b then GoMap.put Value-discrete v pks idx else idx)
erased-IsIndex true v pks idx h = put-IsMap Value-discrete v pks idx h
erased-IsIndex false v pks idx h = h

remove_pk-IsIndex :
    (v : Value) (pk : String) (idx : Index) → IsIndex idx → IsIndex (remove_pk v pk idx)
unfolding remove_pk
remove_pk-IsIndex v pk idx h =
    delete_if_empty-IsIndex v _ _
      (erased-IsIndex (contains pk (entry v idx)) v (erase String-discrete pk (entry v idx)) idx h)

same-IsIndex : {a b : Index} → ◌≡◌ {A = Outcome Index} (ok a) (ok b) → IsIndex a → IsIndex b
same-IsIndex {a} {b} e h = let p : a ≡ b = cc e in subst IsIndex p h

module _ (pk : String) (idx : Index) {out : Index} (h : IsIndex idx) where
  append_to_index-IsIndex : (v : Value) → append_to_index v pk idx ≡ ok out → IsIndex out
  unfolding append_to_index
  append_to_index-IsIndex v e = elim (Bool-cases (hashable v)) [
    | inl k ↦ same-IsIndex (rw k at e) (append_pk-IsIndex v pk idx h)
    | inr k ↦ cc (rw k at e)
  ]

  remove_from_index-IsIndex : (v : Value) → remove_from_index v pk idx ≡ ok out → IsIndex out
  unfolding remove_from_index
  remove_from_index-IsIndex v e = elim (Bool-cases (hashable v)) [
    | inl k ↦ same-IsIndex (rw k at e) (remove_pk-IsIndex v pk idx h)
    | inr k ↦ cc (rw k at e)
  ]

module _ (pk : String) (idx : Index) {out : Index} (h : IsIndex idx) where
  moved_unless-IsIndex :
      (same : Bool) (old new : Value) → move_unless same old new pk idx ≡ ok out → IsIndex out
  unfolding move_unless
  moved_unless-IsIndex true old new e = same-IsIndex e h
  moved_unless-IsIndex false old new e =
      let (idx₁, a, b) = >>=-eq-ok (remove_from_index old pk idx) _ e in
      append_to_index-IsIndex pk idx₁ (remove_from_index-IsIndex pk idx h old a) new b

  pub move_pk-IsIndex : (old new : Value) → move_pk old new pk idx ≡ ok out → IsIndex out
  unfolding move_pk
  move_pk-IsIndex old new e =
      let (same, a, b) = >>=-eq-ok (go_eq old new) _ e in moved_unless-IsIndex same old new b

  move_values-IsIndex : (new old : Option Value) → move_values new old pk idx ≡ ok out → IsIndex out
  unfolding move_values
  move_values-IsIndex none old e = same-IsIndex e h
  move_values-IsIndex (some new) none e = same-IsIndex e h
  move_values-IsIndex (some new) (some old) e = move_pk-IsIndex old new e

  pub move_field-IsIndex :
      (existing r : Record) (f : String) → move_field existing r pk f idx ≡ ok out → IsIndex out
  unfolding move_field
  move_field-IsIndex existing r f e = move_values-IsIndex (at f r) (at f existing) e

  pub add_field-IsIndex : (r : Record) (f : String) → add_field r pk f idx ≡ ok out → IsIndex out
  unfolding add_field
  add_field-IsIndex r f e = elim (Option-cases (at f r)) [
    | inl n ↦ same-IsIndex (rw (n, add_field) at e) h
    | inr (v, s) ↦ append_to_index-IsIndex pk idx h v (rw (s, add_field) at e)
  ]

  pub drop_field-IsIndex : (r : Record) (f : String) → drop_field r pk f idx ≡ ok out → IsIndex out
  unfolding drop_field
  drop_field-IsIndex r f e = elim (Option-cases (at f r)) [
    | inl n ↦ same-IsIndex (rw (n, drop_field) at e) h
    | inr (v, s) ↦ remove_from_index-IsIndex pk idx h v (rw (s, drop_field) at e)
  ]
