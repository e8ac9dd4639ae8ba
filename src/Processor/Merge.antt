-- ===== src/Processor/Merge.antt =====
-- backend/processor/processor.go: what `mergeUniqueStrings` makes of two lists of texts.
use alma_backend_task.Prelude.{
  ℕ, suc, ◌+◌, if_pos, if_neg, String, ◌≡◌, ◌≢◌, refl, List, [], ◌∷◌, ◌++◌, ite, arith, count,
  count-append, String-discrete, if◌then◌else◌, Bool-cases, inl, inr,
}
use alma_backend_task.Db.Index.{contains}
use alma_backend_task.Processor.Accumulate.{append_unseen, merge_unique}

once : (s : String) → count String-discrete s (s ∷ []) ≡ 1
unfolding count
once s = if_pos {C = ℕ} (String-discrete s s) refl 1 0

never : (id s : String) → id ≢ s → count String-discrete s (id ∷ []) ≡ 0
unfolding count
never id s m = if_neg {C = ℕ} (String-discrete id s) m 1 0

-- One round: the text is counted unless it was seen.
added :
    (seen : List String) (id s : String) (out : List String) (n : ℕ)
    → count String-discrete s (if contains id seen then out else out ++ id ∷ [])
        + (if contains s seen then 0 else n)
      ≡ count String-discrete s out
        + (if contains s seen then 0 else ite (String-discrete id s) (suc n) n)
added seen id s out n = elim (String-discrete id s) [
  | yes p ↦ elim (Bool-cases (contains s seen)) [
    | inl c ↦ rw (p, c) (omega arith)
    | inr c ↦
        rw (p, c, count-append, if_pos {C = ℕ} (String-discrete s s) refl (suc n) n, once s)
          (omega arith)
  ]
  | no m ↦ elim (Bool-cases (contains id seen)) [
    | inl b ↦ rw (b, if_neg {C = ℕ} (String-discrete id s) m (suc n) n) refl
    | inr b ↦
        rw (b, if_neg {C = ℕ} (String-discrete id s) m (suc n) n, count-append, never id s m)
          (omega arith)
  ]
]

append_unseen_lem :
    (seen ids out : List String) (s : String)
    → count String-discrete s (append_unseen seen ids out)
      ≡ count String-discrete s out + (if contains s seen then 0 else count String-discrete s ids)
unfolding append_unseen count
append_unseen_lem seen [] out s = elim (Bool-cases (contains s seen)) [
  | inl c ↦ rw c (omega arith)
  | inr c ↦ rw c (omega arith)
]
append_unseen_lem seen (id ∷ ids) out s =
    let next = if contains id seen then out else out ++ id ∷ [] in
    let later = append_unseen_lem seen ids next s in
    rw later (added seen id s out (count String-discrete s ids))

-- The merge of two lists has each text as often as the existing list, and if the existing list
-- lacks it, as often as the incoming list.
pub merge_unique_lem :
    (existing incoming : List String) (s : String)
    → count String-discrete s (merge_unique existing incoming)
      ≡ count String-discrete s existing
        + (if contains s existing then 0 else count String-discrete s incoming)
unfolding merge_unique
merge_unique_lem existing incoming s = append_unseen_lem existing incoming existing s
