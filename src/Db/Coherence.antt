-- ===== src/Db/Coherence.antt =====
-- db/memory.go: the indexes of a table against its records.
use alma_backend_task.Prelude.{
  ℕ, ◌+◌, ◌-◌, ◌≤◌, String, ◌≡◌, ◌≢◌, ap, Option, none, some, ok, ite, arith, String-discrete,
}
use alma_backend_task.Value.{Value}
use alma_backend_task.Db.Types.{Record, Index, Indexes, Outcome, at}
use alma_backend_task.Db.Index.{each_index, add_field, drop_field, move_field}
use alma_backend_task.Db.Index.Refs.{refs}
use alma_backend_task.Db.Index.Distinct.{
  IsIndex, add_field-IsIndex, drop_field-IsIndex, move_field-IsIndex,
}
use alma_backend_task.Db.Index.Loop.{each_index-some}
use alma_backend_task.Db.Index.Rounds.{
  weight, or_else, add_field-refs, drop_field-refs, move_field-refs,
}

abbrev pub Lookup : Type 0
Lookup = String → Option Record

-- Each index lists a key under a value once if the record of the key has the value in the field,
-- and otherwise not at all.
pub record IsCoherent (look : Lookup) (idxs : Indexes) : Type 0 where
  pub counted :
      (f : String) (idx : Index)
      → at f idxs ≡ some idx
      → (v : Value) (pk : String) → refs idx v pk ≡ weight (look pk) f v
  pub maps : (f : String) (idx : Index) → at f idxs ≡ some idx → IsIndex idx

-- The records after one key is written (`some`) or deleted (`none`).
abbrev pub updated : String → Option Record → Lookup → Lookup
updated pk o look q = ite (String-discrete pk q) o (look q)

pub IsCoherent-ext :
    {look look' : Lookup} {idxs : Indexes}
    → ((q : String) → look' q ≡ look q)
    → IsCoherent look idxs
    → IsCoherent look' idxs
IsCoherent-ext e c = record {
  counted = λ f idx p v pk. ground (arith, c.counted f idx p v pk, e pk);
  maps = c.maps;
}

pub settle :
    (look : Lookup) (pk q f : String) (v : Value) (o : Option Record) (before after : ℕ)
    (d : Dec (pk ≡ q))
    → after + ite d (weight (look pk) f v) 0 ≡ before + ite d (weight o f v) 0
    → before ≡ weight (look q) f v
    → after ≡ weight (ite d o (look q)) f v
settle look pk q f v o before after (yes e) moved c =
    omega (arith, ap (λ (k : String). weight (look k) f v) e)
settle look pk q f v o before after (no n) moved c = omega arith

-- What is taken away was there.
taken_back :
    (at_key : String → ℕ) (pk q : String) (w after : ℕ) (d : Dec (pk ≡ q))
    → after ≡ at_key q - ite d w 0
    → w ≤ at_key pk
    → after + ite d w 0 ≡ at_key q + ite d 0 0
taken_back at_key pk q w after (yes e) h le = omega (arith, ap at_key e)
taken_back at_key pk q w after (no n) h le = omega arith

-- A loop whose rounds move each index from the old record of the key to the new one.
module _ {look : Lookup} {idxs : Indexes} (pk : String) (o : Option Record) where
  pub loop-IsCoherent :
      (body : String → Index → Outcome Index) {out : Indexes}
      → ((f : String) (idx idx' : Index) (v : Value) (q : String)
          → body f idx ≡ ok idx'
          → weight (look pk) f v ≤ refs idx v pk
          → at f idxs ≡ some idx
          → refs idx' v q + ite (String-discrete pk q) (weight (look pk) f v) 0
            ≡ refs idx v q + ite (String-discrete pk q) (weight o f v) 0)
      → ((f : String) (idx idx' : Index) → body f idx ≡ ok idx' → IsIndex idx → IsIndex idx')
      → each_index body idxs ≡ ok out
      → IsCoherent look idxs
      → IsCoherent (updated pk o look) out
  loop-IsCoherent body {out} rounds keep h c = record {
    counted = λ f idx' p v q.
        let (idx, a, b) = each_index-some body idxs h f idx' p in
        settle look pk q f v o (refs idx v q) (refs idx' v q) (String-discrete pk q)
          (rounds f idx idx' v q b (omega (arith, c.counted f idx a v pk)) a)
          (c.counted f idx a v q);
    maps = λ f idx' p.
        let (idx, a, b) = each_index-some body idxs h f idx' p in
        keep f idx idx' b (c.maps f idx a);
  }

module _ {look : Lookup} {idxs out : Indexes} (pk : String) (r : Record) where
  -- A new record, under a key that had none.
  pub add-IsCoherent :
      each_index (add_field r pk) idxs ≡ ok out
      → look pk ≡ none
      → IsCoherent look idxs
      → IsCoherent (updated pk (some r) look) out
  add-IsCoherent h new =
      loop-IsCoherent pk (some r) (add_field r pk)
        (λ f idx idx' v q e _ _. ground (arith, new, add_field-refs pk q f v idx r e))
        (λ f idx idx' e m. add_field-IsIndex pk idx m r f e) h

  -- The record of the key is taken out.
  pub drop-IsCoherent :
      each_index (drop_field r pk) idxs ≡ ok out
      → look pk ≡ some r
      → IsCoherent look idxs
      → IsCoherent (updated pk none look) out
  drop-IsCoherent h old =
      loop-IsCoherent pk none (drop_field r pk)
        (λ f idx idx' v q e le _.
          taken_back (refs idx v) pk q (weight (look pk) f v) (refs idx' v q) (String-discrete pk q)
            (rw old (drop_field-refs pk q f v idx r e)) le)
        (λ f idx idx' e m. drop_field-IsIndex pk idx m r f e) h

  -- The record of the key is merged with another; both must have the indexed fields.
  pub move-IsCoherent :
      (existing merged : Record)
      → each_index (move_field existing r pk) idxs ≡ ok out
      → look pk ≡ some existing
      → ((f : String) → at f merged ≡ or_else (at f r) (at f existing))
      → ((f : String) → at f idxs ≢ none → at f existing ≢ none)
      → IsCoherent look idxs
      → IsCoherent (updated pk (some merged) look) out
  move-IsCoherent existing merged h old law full =
      loop-IsCoherent pk (some merged) (move_field existing r pk)
        (λ f idx idx' v q e le p.
          rw (old, law)
            (move_field-refs pk q f v idx existing r e (full f (λ x. ground (arith, p, x)))
              (rw old at le)))
        (λ f idx idx' e m. move_field-IsIndex pk idx m existing r f e) h
