-- ===== src/Db/Index.antt =====
-- db/memory.go: one secondary index, and the loops over the indexes of a table.
pub mod Refs
pub mod Loop
pub mod Rounds
pub mod Returns
pub mod Distinct
use alma_backend_task.Prelude.{
  String, Bool, true, false, Option, none, some, List, [], ◌∷◌, ◌++◌, ok, panic, ◌>>=◌, ite, erase,
  String-discrete, if◌then◌else◌,
}
use alma_backend_task.GoMap
use alma_backend_task.Value.{Value, Value-discrete, hashable, go_eq}
use alma_backend_task.Db.Types.{Record, Index, Indexes, Outcome, at}

-- A missing key reads as the nil slice.
abbrev pub or_empty {ℓ} : {A : Type ℓ} → Option (List A) → List A
or_empty none = []
or_empty (some xs) = xs

-- `index[val]`
abbrev pub entry : Value → Index → List String
entry v idx = or_empty (GoMap.get Value-discrete v idx)

unfoldable pub contains : String → List String → Bool
contains pk [] = false
contains pk (p ∷ ps) = ite (String-discrete p pk) true (contains pk ps)

-- `index[val] = append(index[val], pk)`
unfoldable pub append_pk : Value → String → Index → Index
append_pk v pk idx = GoMap.put Value-discrete v (entry v idx ++ pk ∷ []) idx

abbrev pub delete_if_empty : Value → List String → Index → Index
delete_if_empty v [] idx = GoMap.delete Value-discrete v idx
delete_if_empty v (p ∷ ps) idx = idx

-- The body of `removeFromIndex`, at a value that can be a key.
unfoldable pub remove_pk : Value → String → Index → Index
remove_pk v pk idx =
    let pks = entry v idx in
    let idx' =
      if contains pk pks
      then GoMap.put Value-discrete v (erase String-discrete pk pks) idx
      else idx in
    delete_if_empty v (entry v idx') idx'

unfoldable pub append_to_index : Value → String → Index → Outcome Index
append_to_index v pk idx = if hashable v then ok (append_pk v pk idx) else panic

unfoldable pub remove_from_index : Value → String → Index → Outcome Index
remove_from_index v pk idx = if hashable v then ok (remove_pk v pk idx) else panic

-- `for idxField := range table.indexes { … }`: each round changes the index that it visits.
unfoldable pub each_index : (String → Index → Outcome Index) → Indexes → Outcome Indexes
each_index body [] = ok []
each_index body ((f, idx) ∷ rest) = do
  idx' ← body f idx
  rest' ← each_index body rest
  ok ((f, idx') ∷ rest')

-- The round of the loops that add a new record.
unfoldable pub add_field : Record → String → String → Index → Outcome Index
add_field r pk f idx = elim (at f r) [ none ↦ ok idx | some v ↦ append_to_index v pk idx ]

-- The round of the loops that take a record out.
unfoldable pub drop_field : Record → String → String → Index → Outcome Index
drop_field r pk f idx = elim (at f r) [ none ↦ ok idx | some v ↦ remove_from_index v pk idx ]

unfoldable pub move_unless : Bool → Value → Value → String → Index → Outcome Index
move_unless true old new pk idx = ok idx
move_unless false old new pk idx = do
  idx' ← remove_from_index old pk idx
  append_to_index new pk idx'

-- Moves the key from the old value to the new one, if they differ.
unfoldable pub move_pk : Value → Value → String → Index → Outcome Index
move_pk old new pk idx = do same ← go_eq old new; move_unless same old new pk idx

-- `if newVal, hasNew := …; hasNew { if oldVal, hasOld := …; hasOld && oldVal != newVal { … } }`
unfoldable pub move_values : Option Value → Option Value → String → Index → Outcome Index
move_values none old pk idx = ok idx
move_values (some new) none pk idx = ok idx
move_values (some new) (some old) pk idx = move_pk old new pk idx

-- The round of the loops of `Upsert` and `UpsertBatch` over an existing record.
unfoldable pub move_field : Record → Record → String → String → Index → Outcome Index
move_field existing r pk f idx = move_values (at f r) (at f existing) pk idx
