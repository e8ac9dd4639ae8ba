-- ===== src/GoMap/Distinct.antt =====
-- The keys of a Go map are distinct: each write and each deletion keeps that.
use alma_backend_task.Prelude.{
  ℕ, ◌+◌, ◌≤◌, ◌≡◌, refl, Option, none, some, [], ◌∷◌, ite, arith, if_neg, if_pos, count,
  count-cons, All,
}
use alma_backend_task.GoMap.{Map, keys, get, put, delete}

-- the number if the map lacks the key, else 0
abbrev pub absent {ℓ} : {V : Type ℓ} → Option V → ℕ → ℕ
absent none n = n
absent (some v) n = 0

absent_zero {ℓ} : {V : Type ℓ} (o : Option V) {n : ℕ} → n ≤ 1 → n + absent o 0 ≤ 1
absent_zero none h = omega arith
absent_zero (some v) h = omega arith

absent_bound {ℓ κ} :
    {V : Type ℓ} {P : Type κ} (o : Option V) (d : Dec P) {n : ℕ}
    → n ≤ 1
    → (o ≡ none → n ≡ 0)
    → n + absent o (ite d 1 0) ≤ 1
absent_bound none (yes p) h z = omega (arith, z refl)
absent_bound none (no n) h z = omega arith
absent_bound (some v) d h z = omega arith

module _ {K V : Type 0} (dec : Discrete K) where
  abbrev pub IsMap : Map K V → Type 0
  IsMap m = (k : K) → count dec k (keys m) ≤ 1

  pub count-keys-none : (k : K) (m : Map K V) → get dec k m ≡ none → count dec k (keys m) ≡ 0
  unfolding get count
  count-keys-none k [] h = refl
  count-keys-none k ((j, v) ∷ m) h = ground (arith, count-keys-none k m)

  -- A write adds the key if the map lacks it, and no other key.
  pub count-keys-put :
      (k j : K) (v : V) (m : Map K V)
      → count dec j (keys (put dec k v m))
        ≡ count dec j (keys m) + absent (get dec k m) (ite (dec k j) 1 0)
  unfolding count put get
  count-keys-put k j v [] = ground arith
  count-keys-put k j v ((i, w) ∷ m) = ground (arith, count-keys-put k j v m)

  pub count-keys-delete-le :
      (k j : K) (m : Map K V) → count dec j (keys (delete dec k m)) ≤ count dec j (keys m)
  unfolding count delete
  count-keys-delete-le k j [] = omega arith
  count-keys-delete-le k j ((i, w) ∷ m) = ground (arith, count-keys-delete-le k j m)

  pub put-IsMap : (k : K) (v : V) (m : Map K V) → IsMap m → IsMap (put dec k v m)
  put-IsMap k v m h j = elim (dec k j) [
    | yes e ↦
        rw count-keys-put
          (absent_bound (get dec k m) (dec k j) (h j) (λ n. rw (← e) (count-keys-none k m n)))
    | no n ↦ rw (count-keys-put, if_neg (dec k j) n) (absent_zero (get dec k m) (h j))
  ]

  pub delete-IsMap : (k : K) (m : Map K V) → IsMap m → IsMap (delete dec k m)
  delete-IsMap k m h j = omega (arith, h j, count-keys-delete-le k j m)

  pub count-keys-some :
      (k : K) (v : V) (m : Map K V) → get dec k m ≡ some v → 1 ≤ count dec k (keys m)
  unfolding get count
  count-keys-some k v [] h = cc
  count-keys-some k v ((j, w) ∷ m) h = ground (arith, count-keys-some k v m)

  -- An entry of the list is what its key reads.
  abbrev IsEntry : Map K V → K × V → Type 0
  IsEntry m e = get dec e.0 m ≡ some e.1

  entries-cons :
      (k : K) (v : V) (m es : Map K V)
      → count dec k (keys m) ≡ 0
      → All (IsEntry m) es
      → All (IsEntry ((k, v) ∷ m)) es
  unfolding get
  entries-cons k v m [] z h = tt
  entries-cons k v m ((j, w) ∷ es) z h = (
    elim (dec k j) [
      | yes p ↦ absurd (omega (arith, z, count-keys-some k w m (rw p h.0)))
      | no n ↦ rw (if_neg (dec k j) n) h.0
    ],
    entries-cons k v m es z h.1,
  )

  -- The keys of a map are distinct, so that each entry is what its key reads.
  pub entries : (m : Map K V) → IsMap m → All (IsEntry m) m
  unfolding get
  entries [] h = tt
  entries ((k, v) ∷ m) h =
      let z : count dec k (keys m) ≡ 0 =
        omega (arith, h k, count-cons dec k k (keys m), if_pos {C = ℕ} (dec k k) refl 1 0) in
      (
        rw (if_pos (dec k k) refl) refl,
        entries-cons k v m m z (entries m (λ j. omega (arith, h j, count-cons dec j k (keys m)))),
      )
