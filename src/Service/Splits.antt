-- ===== src/Service/Splits.antt =====
-- backend/processor/processor.go: the ids of connections and components, as what they are joined of
-- where it has no colon.
use Prim.Native.Char.{Char}
use Prim.Native.String.{◌++◌}
use text.Mathlib.TextLemmas.{cons-append, nil-append}
use alma_backend_task.Prelude.{String, ◌≡◌, ◌≢◌, refl, sym, ◌∙◌, ap, ◌⊎◌, inl, inr}

abbrev colon : Char
colon = ":"

abbrev pub NoColon : String → Type 0
NoColon String.[] = Unit
NoColon (String.◌∷◌ c s) = (c ≢ colon) × NoColon s

-- A colon joins the two.
abbrev with_colon : String → String → String
with_colon s d = s ++ (":" ++ d)

colon-cons : (d : String) → ":" ++ d ≡ String.◌∷◌ colon d
colon-cons d = cons-append colon "" d ∙ ap (String.◌∷◌ colon) (nil-append d)

with_colon-nil : (d : String) → with_colon String.[] d ≡ String.◌∷◌ colon d
with_colon-nil d = nil-append (":" ++ d) ∙ colon-cons d

with_colon-cons :
    (c : Char) (s d : String) → with_colon (String.◌∷◌ c s) d ≡ String.◌∷◌ c (with_colon s d)
with_colon-cons c s d = cons-append c s (":" ++ d)

-- A text that a colon joins has a colon.
with_colon-NoColon : (s d t : String) → NoColon t → t ≢ with_colon s d
with_colon-NoColon String.[] d String.[] h = λ e. cc (e, with_colon-nil d)
with_colon-NoColon (String.◌∷◌ c s) d String.[] h = λ e. cc (e, with_colon-cons c s d)
with_colon-NoColon String.[] d (String.◌∷◌ b t) h = λ e. h.0 (cc (e, with_colon-nil d))
with_colon-NoColon (String.◌∷◌ c s) d (String.◌∷◌ b t) h =
    λ e. with_colon-NoColon s d t h.1 (cc (e, with_colon-cons c s d))

-- A text with a colon after one that has none is split there, or further on.
split_first :
    (s d s' d' : String)
    → NoColon s
    → with_colon s' d' ≡ with_colon s d
    → ((s' ≡ s) × (d' ≡ d)) ⊎ ((r : String) × (with_colon r d' ≡ d))
split_first String.[] d String.[] d' h e = inl (refl, cc (e, with_colon-nil d, with_colon-nil d'))
split_first (String.◌∷◌ c s) d String.[] d' h e =
    absurd (h.0 (cc (e, with_colon-cons c s d, with_colon-nil d')))
split_first String.[] d (String.◌∷◌ c' s') d' h e =
    inr (s', cc (e, with_colon-nil d, with_colon-cons c' s' d'))
split_first (String.◌∷◌ c s) d (String.◌∷◌ c' s') d' h e =
    let e' : with_colon s' d' ≡ with_colon s d =
      cc (e, with_colon-cons c s d, with_colon-cons c' s' d') in
    elim (split_first s d s' d' h.1 e') [
      | inl (a, b) ↦ inl (cc (a, e, with_colon-cons c s d, with_colon-cons c' s' d'), b)
      | inr (r, b) ↦ inr (r, b)
    ]

-- If a colon joins two texts with none, there is one way to split what it makes.
pub split_once :
    (s d s' d' : String)
    → NoColon s
    → NoColon d
    → s' ++ (":" ++ d') ≡ s ++ (":" ++ d)
    → (s' ≡ s) × (d' ≡ d)
split_once s d s' d' h k e = elim (split_first s d s' d' h e) [
  | inl both ↦ both
  | inr (r, b) ↦ absurd (with_colon-NoColon r d' d k (sym b))
]

-- The same of three texts with no colon.
pub split_twice :
    (t a v t' a' v' : String)
    → NoColon t
    → NoColon a
    → NoColon v
    → t' ++ (":" ++ (a' ++ (":" ++ v'))) ≡ t ++ (":" ++ (a ++ (":" ++ v)))
    → (t' ≡ t) × ((a' ≡ a) × (v' ≡ v))
split_twice t a v t' a' v' h k l e =
    elim (split_first t (with_colon a v) t' (with_colon a' v') h e) [
      | inl (b, b') ↦ (b, split_once a v a' v' k l b')
      | inr (r, b) ↦
          absurd (with_colon-NoColon a' v' v l (sym (split_once a v r (with_colon a' v') k l b).1))
    ]
