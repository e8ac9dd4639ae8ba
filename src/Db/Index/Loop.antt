-- ===== src/Db/Index/Loop.antt =====
-- db/memory.go: a loop over the indexes of a table changes each of them by its own round, and adds
-- and drops none.
use alma_backend_task.Prelude.{
  String, ◌≡◌, ◌≢◌, refl, none, some, [], ◌∷◌, ok, >>=-eq-ok, arith, String-discrete,
}
use alma_backend_task.GoMap
use alma_backend_task.Db.Types.{Index, Indexes, Outcome, at}
use alma_backend_task.Db.Index.{each_index}

module _ (body : String → Index → Outcome Index) where
  -- what the first round and the rest of the loop give
  step_eq :
      (g : String) (idx : Index) (rest : Indexes) {out : Indexes}
      → each_index body ((g, idx) ∷ rest) ≡ ok out
      → (idx' : Index) × (rest' : Indexes) × (body g idx ≡ ok idx')
        × (each_index body rest ≡ ok rest')
        × (out ≡ (g, idx') ∷ rest')
  unfolding each_index
  step_eq g idx rest h =
      let (idx', e, h') = >>=-eq-ok (body g idx) _ h in
      let (rest', e', h'') = >>=-eq-ok (each_index body rest) _ h' in (idx', rest', e, e', cc h'')

  -- Each index after the loop comes from the round at the index before it.
  pub each_index-some :
      (idxs : Indexes) {out : Indexes}
      → each_index body idxs ≡ ok out
      → (f : String) (idx' : Index) → at f out ≡ some idx'
      → (idx : Index) × (at f idxs ≡ some idx) × (body f idx ≡ ok idx')
  unfolding each_index GoMap.get
  each_index-some [] h f idx' p = cc
  each_index-some ((g, idx) ∷ rest) h f idx' p =
      let (idx₁, rest', e, e', eq) = step_eq g idx rest h in
      let p' : at f ((g, idx₁) ∷ rest') ≡ some idx' = rw eq at p in
      elim (String-discrete g f) [
        | yes q ↦ (idx, ground arith, ground (arith, e, q))
        | no n ↦
            let (i, a, b) = each_index-some rest e' f idx' (ground arith) in (i, ground arith, b)
      ]

  pub each_index-none :
      (idxs : Indexes) {out : Indexes}
      → each_index body idxs ≡ ok out
      → (f : String) → at f out ≡ none
      → at f idxs ≡ none
  unfolding each_index GoMap.get
  each_index-none [] h f p = refl
  each_index-none ((g, idx) ∷ rest) h f p =
      let (idx₁, rest', e, e', eq) = step_eq g idx rest h in
      let p' : at f ((g, idx₁) ∷ rest') ≡ none = rw eq at p in
      elim (String-discrete g f) [
        | yes q ↦ ground arith
        | no n ↦ ground (arith, each_index-none rest e' f (ground arith))
      ]

  -- If every round at an index of the table returns, so does the loop.
  pub each_index-returns :
      (idxs : Indexes)
      → ((f : String) (idx : Index) → at f idxs ≢ none → (idx' : Index) × (body f idx ≡ ok idx'))
      → (out : Indexes) × (each_index body idxs ≡ ok out)
  unfolding each_index GoMap.get
  each_index-returns [] h = ([], refl)
  each_index-returns ((g, idx) ∷ rest) h =
      let (idx', e) = h g idx (ground arith) in
      let (rest', e') = each_index-returns rest (λ f i p. h f i (ground arith)) in
      ((g, idx') ∷ rest', rw (e, e'))
