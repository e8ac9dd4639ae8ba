-- ===== src/Db/Validity/Fields.antt =====
-- db/memory.go: the loop over the fields to update, in `InsertOnConflict` and its batch form.
use alma_backend_task.Prelude.{
  ◌+◌, ◌≤◌, String, ◌≡◌, ◌≢◌, refl, sym, subst, true, none, some, ok, ite, arith, String-discrete,
  Option-cases, inl, inr, if_pos, if_neg,
}
use alma_backend_task.GoMap.{get-put}
use alma_backend_task.Value.{Value, hashable}
use alma_backend_task.Db.Types.{Record, Index, Indexes, at, set_at}
use alma_backend_task.Db.Index.{move_pk}
use alma_backend_task.Db.Index.Distinct.{IsIndex, move_pk-IsIndex}
use alma_backend_task.Db.Index.Refs.{refs}
use alma_backend_task.Db.Index.Rounds.{weight, field_weight, move_pk-refs}
use alma_backend_task.Db.Index.Returns.{move_pk-returns}
use alma_backend_task.Db.Conflict.{move_in}
use alma_backend_task.Db.Coherence.{Lookup, IsCoherent, updated, settle}
use alma_backend_task.Db.Validity.{Indexed}

some_eq {ℓ} : {A : Type ℓ} {a b : A} → some a ≡ some b → a ≡ b
some_eq e = cc e

module _ (look : Lookup) (pk f : String) (e : Record) (new : Value) (held : look pk ≡ some e) where
  abbrev pub after : Lookup
  after = updated pk (some (set_at f new e)) look

  -- The other fields weigh what they did.
  weight_other :
      (g : String) (v : Value) (q : String) → f ≢ g → weight (after q) g v ≡ weight (look q) g v
  weight_other g v q n = elim (String-discrete pk q) [
    | yes p ↦
        rw (if_pos (String-discrete pk q) p, get-put, if_neg (String-discrete f g) n, ← p, held)
          refl
    | no m ↦ rw (if_neg (String-discrete pk q) m) refl
  ]

  pub unindexed-IsCoherent :
      (idxs : Indexes) → IsCoherent look idxs → at f idxs ≡ none → IsCoherent after idxs
  unindexed-IsCoherent idxs c a = record {
    counted = λ g i p v q.
        rw
          (weight_other g v q
            (λ s. ground (arith, p, subst (λ (k : String). at k idxs ≡ none) s a)))
          (c.counted g i p v q);
    maps = c.maps;
  }

  module _ (idxs : Indexes) (c : IsCoherent look idxs) (old : Value) (was : at f e ≡ some old) where
    listed :
        (idx : Index)
        → at f idxs ≡ some idx
        → (v : Value) → field_weight (some old) v ≤ refs idx v pk
    listed idx a v = rw (c.counted f idx a v pk, held, was) (omega arith)

    moved_refs :
        (idx idx' : Index)
        → at f idxs ≡ some idx
        → move_pk old new pk idx ≡ ok idx'
        → (v : Value) (q : String)
        → refs idx' v q + ite (String-discrete pk q) (weight (look pk) f v) 0
          ≡ refs idx v q + ite (String-discrete pk q) (weight (some (set_at f new e)) f v) 0
    moved_refs idx idx' a m v q =
        rw (held, was, get-put, if_pos (String-discrete f f) refl)
          (move_pk-refs pk q v idx old new m (listed idx a v))

    -- the index of the field, after the key has moved
    moved-IsCoherent :
        (idx idx' : Index)
        → at f idxs ≡ some idx
        → move_pk old new pk idx ≡ ok idx'
        → IsCoherent after (set_at f idx' idxs)
    moved-IsCoherent idx idx' a m = record {
      counted = λ g i p v q. elim (String-discrete f g) [
        | yes s ↦ rw (← some_eq (rw (get-put, if_pos (String-discrete f g) s) at p)) (
            subst (λ (k : String). refs idx' v q ≡ weight (after q) k v) s
              (settle look pk q f v (some (set_at f new e)) (refs idx v q) (refs idx' v q)
                (String-discrete pk q) (moved_refs idx idx' a m v q) (c.counted f idx a v q)))
        | no n ↦
            rw (weight_other g v q n)
              (c.counted g i (rw (get-put, if_neg (String-discrete f g) n) at p) v q)
      ];
      maps = λ g i p. elim (String-discrete f g) [
        | yes s ↦
            subst IsIndex (some_eq (rw (get-put, if_pos (String-discrete f g) s) at p))
              (move_pk-IsIndex pk idx (c.maps f idx a) old new m)
        | no n ↦ c.maps g i (rw (get-put, if_neg (String-discrete f g) n) at p)
      ];
    }

    pub move_in-IsCoherent :
        hashable old ≡ true
        → hashable new ≡ true
        → (out : Indexes) × (move_in f old new pk idxs ≡ ok out)
          × IsCoherent after out
          × ((g : String) → Indexed out g → Indexed idxs g)
    unfolding move_in
    move_in-IsCoherent h h' = elim (Option-cases (at f idxs)) [
      | inl a ↦ (idxs, ground (arith, a), unindexed-IsCoherent idxs c a, λ g p. p)
      | inr (idx, a) ↦
          let (idx', m) = move_pk-returns pk f idx old new h h' in
          (
            set_at f idx' idxs,
            rw (a, move_in, m),
            moved-IsCoherent idx idx' a m,
            λ g p. elim (String-discrete f g) [
              | yes s ↦ λ n. ground (arith, a, subst (λ (k : String). at k idxs ≡ none) (sym s) n)
              | no n ↦ rw (get-put, if_neg (String-discrete f g) n) at p
            ],
          )
    ]
