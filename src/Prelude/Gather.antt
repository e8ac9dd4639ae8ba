-- ===== src/Prelude/Gather.antt =====
-- Lists that hold the same items as often, where it matters, are gathered into permutations.
use Prim.Native.Nat.{◌+◌, ◌<◌}
use mathlib.Core.Path.{◌≡◌, refl, sym, ◌∙◌}
use mathlib.Core.Logic.{◌≢◌, if_pos, if_neg, inl, inr}
use mathlib.Core.List.{List, [], ◌∷◌, Perm}
use mathlib.Core.List.Perm
use mathlib.Core.Option.{Option, none, some}
use native.Mathlib.Omega.{arith}
use alma_backend_task.Prelude.Lists.{count, erase, count-cons, count-erase, gather}
use alma_backend_task.Prelude.Tests.{Option-cases}

module _ {A : Type 0} {B : Type 0} (dec : Discrete A) (g : A → Option B) where
  count-nil : (a : A) → count dec a [] ≡ 0
  unfolding count
  count-nil a = refl

  -- The item is gathered first.
  gather-erase :
      (x : A) {b : B} (ys : List A)
      → g x ≡ some b
      → 0 < count dec x ys
      → Perm (gather g ys) (b ∷ gather g (erase dec x ys))
  unfolding gather erase
  gather-erase x [] e h = absurd (omega (arith, count-nil x))
  gather-erase x {b} (y ∷ ys) e h = elim (dec y x) [
    | yes p ↦ rw (if_pos (dec y x) p, p, e) (Perm.refl _)
    | no n ↦
        let h' : 0 < count dec x ys + 0 = rw (count-cons, if_neg (dec y x) n) at h in
        let ih = gather-erase x {b = b} ys e (omega (arith, h')) in
        rw (if_neg (dec y x) n) (elim (Option-cases (g y)) [
          | inl s ↦ rw s ih
          | inr (c, s) ↦ rw s (Perm.trans (Perm.cons c ih) (Perm.swap _ _ _))
        ])
  ]

  gather-none : (ys : List A) → ((a : A) → g a ≢ none → count dec a ys ≡ 0) → gather g ys ≡ []
  unfolding gather
  gather-none [] h = refl
  gather-none (y ∷ ys) h = elim (Option-cases (g y)) [
    | inl e ↦ rw e (gather-none ys (λ a k. omega (arith, h a k, count-cons dec a y ys)))
    | inr (b, e) ↦
        let z : count dec y (y ∷ ys) ≡ 0 = h y (λ n. ground (arith, e, n)) in
        absurd (omega (arith, (rw (count-cons, if_pos (dec y y) refl) at z)))
  ]

  others : (a x : A) (xs : List A) → g x ≡ none → g a ≢ none → count dec a (x ∷ xs) ≡ count dec a xs
  others a x xs e k = elim (dec x a) [
    | yes p ↦ absurd (k (rw (← p) e))
    | no n ↦ rw (count-cons, if_neg (dec x a) n) (omega arith)
  ]

  pub gather-Perm :
      (xs ys : List A)
      → ((a : A) → g a ≢ none → count dec a xs ≡ count dec a ys)
      → Perm (gather g xs) (gather g ys)
  unfolding gather
  gather-Perm [] ys h = rw (gather-none ys (λ a k. sym (h a k) ∙ count-nil a)) (Perm.refl [])
  gather-Perm (x ∷ xs) ys h = elim (Option-cases (g x)) [
    | inl e ↦ rw e (gather-Perm xs ys (λ a k. sym (others a x xs e k) ∙ h a k))
    | inr (b, e) ↦
        let held = h x (λ n. ground (arith, e, n)) in
        let here = count-cons dec x x xs in
        rw e (
          Perm.trans
            (Perm.cons b (
              gather-Perm xs (erase dec x ys)
                (λ a k. omega (arith, h a k, count-cons dec a x xs, count-erase dec a x ys))))
            (Perm.symm
              (gather-erase x ys e (omega (arith, held, (rw (if_pos (dec x x) refl) at here))))))
  ]
