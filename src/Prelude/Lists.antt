-- ===== src/Prelude/Lists.antt =====
-- Lists measured by native numbers, under the library's names, and Go's operations on slices.
use Prim.Native.Nat.{ℕ, zero, suc, ◌+◌, ◌-◌}
use mathlib.Core.Path.{◌≡◌, sym, ◌∙◌}
use mathlib.Core.Logic.{ite, if_pos, if_neg}
use mathlib.Core.List.{List, [], ◌∷◌, ◌++◌}
use mathlib.Core.Option.{Option, none, some}
use native.Mathlib.Omega.{arith}

module _ {ℓ} {A : Type ℓ} where
  abbrev pub length : List A → ℕ
  length [] = 0
  length (x ∷ xs) = suc (length xs)

  abbrev pub take : ℕ → List A → List A
  take zero xs = []
  take (suc n) [] = []
  take (suc n) (x ∷ xs) = x ∷ take n xs

  pub length-append : (xs ys : List A) → length (xs ++ ys) ≡ length xs + length ys
  length-append [] ys = omega arith
  length-append (x ∷ xs) ys = omega (arith, length-append xs ys)

-- Every item of the list satisfies the predicate.
abbrev pub All {ℓ κ} : {A : Type ℓ} → (A → Type κ) → List A → Type κ
All P [] = Unit
All P (x ∷ xs) = P x × All P xs

module _ {ℓ} {A : Type ℓ} (dec : Discrete A) where
  -- how often `a` stands in the list
  unfoldable pub count : A → List A → ℕ
  count a [] = 0
  count a (x ∷ xs) = let rest = count a xs in ite (dec x a) (suc rest) rest

  -- the list without the first `a`
  unfoldable pub erase : A → List A → List A
  erase a [] = []
  erase a (x ∷ xs) = let rest = erase a xs in ite (dec x a) xs (x ∷ rest)

  pub count-append : (a : A) (xs ys : List A) → count a (xs ++ ys) ≡ count a xs + count a ys
  unfolding count
  count-append a [] ys = omega arith
  count-append a (x ∷ xs) ys = ground (arith, count-append a xs ys)

  pub count-cons : (a x : A) (xs : List A) → count a (x ∷ xs) ≡ count a xs + ite (dec x a) 1 0
  unfolding count
  count-cons a x xs = ground arith

  pub count-erase : (a b : A) (xs : List A) → count a (erase b xs) ≡ count a xs - ite (dec b a) 1 0
  unfolding erase
  count-erase a b [] = unfold count in ground arith
  count-erase a b (x ∷ xs) = elim (dec x b) [
    | yes p ↦ rw (if_pos (dec x b) p, count-cons, p) (omega arith)
    | no n ↦
        rw (if_neg (dec x b) n, count-cons, count-cons, count-erase a b xs)
          (elim (dec x a) [
            | yes q ↦ elim (dec b a) [
              | yes r ↦ absurd (n (q ∙ sym r))
              | no r ↦ rw (if_neg (dec b a) r) (omega arith)
            ]
            | no q ↦ rw (if_neg (dec x a) q) (omega arith)
          ])
  ]

-- What a loop appends for each item, where it appends at most one thing.
abbrev pub prepend {ℓ} : {B : Type ℓ} → Option B → List B → List B
prepend none bs = bs
prepend (some b) bs = b ∷ bs

module _ {ℓ κ} {A : Type ℓ} {B : Type κ} where
  unfoldable pub gather : (A → Option B) → List A → List B
  gather g [] = []
  gather g (x ∷ xs) = prepend (g x) (gather g xs)
