-- ===== src/GoMap/Entries.antt =====
-- What holds of every entry of a Go map, over a write and a lookup.
use alma_backend_task.Prelude.{
  ◌≡◌, ◌≢◌, refl, Option, none, some, List, [], ◌∷◌, if_pos, if_neg, All, subst,
}
use alma_backend_task.GoMap.{Map, values, get, put, get-put}

pub All-map {ℓ} :
    {A : Type ℓ} {P Q : A → Type 0} → ((a : A) → P a → Q a) → (xs : List A) → All P xs → All Q xs
All-map f [] h = tt
All-map f (x ∷ xs) h = (f x h.0, All-map f xs h.1)

module _ {K V : Type 0} (dec : Discrete K) where
  pub put-All :
      (P : K × V → Type 0) (k : K) (v : V) (m : Map K V)
      → P (k, v)
      → All P m
      → All P (put dec k v m)
  unfolding put
  put-All P k v [] h hs = (h, tt)
  put-All P k v ((j, w) ∷ m) h hs = elim (dec j k) [
    | yes e ↦ rw (if_pos (dec j k) e) (h, hs.1)
    | no n ↦ rw (if_neg (dec j k) n) (hs.0, put-All P k v m h hs.1)
  ]

  some_eq : {v w : V} → ◌≡◌ {A = Option V} (some v) (some w) → v ≡ w
  some_eq e = cc e

  pub get-All :
      (P : K × V → Type 0) (k : K) (v : V) (m : Map K V) → All P m → get dec k m ≡ some v → P (k, v)
  unfolding get
  get-All P k v [] hs e = cc
  get-All P k v ((j, w) ∷ m) hs e = elim (dec j k) [
    | yes p ↦
        subst (λ x. P (k, x)) (some_eq (rw (if_pos (dec j k) p) at e))
          (subst (λ x. P (x, w)) p hs.0)
    | no n ↦ get-All P k v m hs.1 (rw (if_neg (dec j k) n) at e)
  ]

  -- A key that is there is still there after a write.
  pub put-present :
      (k q : K) (v : V) (m : Map K V) → get dec q m ≢ none → get dec q (put dec k v m) ≢ none
  put-present k q v m h = elim (dec k q) [
    | yes e ↦ rw (get-put, if_pos (dec k q) e) (λ x. cc)
    | no n ↦ rw (get-put, if_neg (dec k q) n) h
  ]

  pub put-present_self : (k : K) (v : V) (m : Map K V) → get dec k (put dec k v m) ≢ none
  put-present_self k v m = rw (get-put, if_pos (dec k k) refl) (λ x. cc)

pub values-All :
    {K V : Type 0} (P : K × V → Type 0) (Q : V → Type 0)
    → ((e : K × V) → P e → Q e.1)
    → (m : Map K V) → All P m
    → All Q (values m)
values-All P Q f [] h = tt
values-All P Q f (e ∷ m) h = (f e h.0, values-All P Q f m h.1)
