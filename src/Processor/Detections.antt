-- ===== src/Processor/Detections.antt =====
-- backend/processor/processor.go: the PIIs of a span in the accumulator.
use alma_backend_task.Prelude.{
  String, ◌≢◌, none, List, [], ◌∷◌, All, String-discrete, Option-cases, inl, inr,
}
use Prim.Native.String.{◌++◌}
use alma_backend_task.GoMap.{Map}
use alma_backend_task.GoMap.Entries.{All-map, put-present, put-present_self}
use alma_backend_task.Db.Types.{Record, at}
use alma_backend_task.Models.{PiiType, pii_type}
use alma_backend_task.Processor.Handlers.{PiiDetector, detect_piis}
use alma_backend_task.Processor.Accumulate.{add_pii, add_pii_types, add_piis}

-- Something holds of the id of each PII that is found in the texts.
abbrev pub Found : (String → Type 0) → List PiiDetector → String → List String → Type 0
Found P detectors id texts =
    All (λ text. All (λ t. P (id ++ (":" ++ pii_type t))) (detect_piis detectors text)) texts

pub Found-map :
    (P Q : String → Type 0) (detectors : List PiiDetector) (id : String) (texts : List String)
    → ((q : String) → P q → Q q)
    → Found P detectors id texts
    → Found Q detectors id texts
Found-map P Q detectors id texts f h =
    All-map (λ text. All-map (λ t. f (id ++ (":" ++ pii_type t))) (detect_piis detectors text))
      texts h

-- The map has the key.
abbrev Has : Map String Record → String → Type 0
Has m q = at q m ≢ none

add_pii-old :
    (id : String) (t : PiiType) (m : Map String Record) (q : String)
    → Has m q
    → Has (add_pii id t m) q
unfolding add_pii
add_pii-old id t m q h = elim (Option-cases (at (id ++ (":" ++ pii_type t)) m)) [
  | inl e ↦ rw (e, add_pii) (put-present String-discrete _ q _ m h)
  | inr (r, e) ↦ rw (e, add_pii) h
]

add_pii-new :
    (id : String) (t : PiiType) (m : Map String Record)
    → Has (add_pii id t m) (id ++ (":" ++ pii_type t))
unfolding add_pii
add_pii-new id t m = elim (Option-cases (at (id ++ (":" ++ pii_type t)) m)) [
  | inl e ↦ rw (e, add_pii) (put-present_self String-discrete _ _ m)
  | inr (r, e) ↦ rw (e, add_pii) (λ n. cc (n, e))
]

add_pii_types-old :
    (id : String) (ts : List PiiType) (m : Map String Record) (q : String)
    → Has m q
    → Has (add_pii_types id ts m) q
unfolding add_pii_types
add_pii_types-old id [] m q h = h
add_pii_types-old id (t ∷ ts) m q h =
    add_pii_types-old id ts (add_pii id t m) q (add_pii-old id t m q h)

add_pii_types-new :
    (id : String) (ts : List PiiType) (m : Map String Record)
    → All (λ t. Has (add_pii_types id ts m) (id ++ (":" ++ pii_type t))) ts
unfolding add_pii_types
add_pii_types-new id [] m = tt
add_pii_types-new id (t ∷ ts) m = (
  add_pii_types-old id ts (add_pii id t m) (id ++ (":" ++ pii_type t)) (add_pii-new id t m),
  add_pii_types-new id ts (add_pii id t m),
)

module _ (detectors : List PiiDetector) (id : String) where
  pub add_piis-old :
      (texts : List String) (m : Map String Record) (q : String)
      → at q m ≢ none
      → at q (add_piis detectors id texts m) ≢ none
  unfolding add_piis
  add_piis-old [] m q h = h
  add_piis-old (text ∷ texts) m q h =
      add_piis-old texts _ q (add_pii_types-old id (detect_piis detectors text) m q h)

  pub add_piis-new :
      (texts : List String) (m : Map String Record)
      → Found (λ q. at q (add_piis detectors id texts m) ≢ none) detectors id texts
  unfolding add_piis
  add_piis-new [] m = tt
  add_piis-new (text ∷ texts) m =
      let ts = detect_piis detectors text in
      (
        All-map (λ t. add_piis-old texts (add_pii_types id ts m) (id ++ (":" ++ pii_type t))) ts
            (add_pii_types-new id ts m),
        add_piis-new texts (add_pii_types id ts m),
      )
