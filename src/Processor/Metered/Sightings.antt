-- ===== src/Processor/Metered/Sightings.antt =====
-- backend/processor/processor.go: how often each type of PII is to be counted, and what is counted.
use alma_backend_task.Prelude.{
  ℕ, ◌+◌, String, ◌≡◌, refl, List, [], ◌∷◌, map, Bool-cases, inl, inr, arith, count, count-cons,
  String-discrete, ite, if◌then◌else◌, Bool, true, false, ◌&&◌,
}
use alma_backend_task.Models.{RawSpan, attr_span_type, PiiType, pii_type}
use alma_backend_task.Processor.Handlers.{attr, handler_for, PiiDetector, detect_piis}
use alma_backend_task.Processor.Process.{SpanProcessor, is_nonempty}
use alma_backend_task.Processor.Metered.{found_in, found_of}
use alma_backend_task.Processor.Metered.Counted.{found_all, count-found}

-- One for each detector of the type that matches the text.
unfoldable pub sightings_in : String → List PiiDetector → String → ℕ
sightings_in t [] text = 0
sightings_in t (d ∷ ds) text =
    let rest = sightings_in t ds text in
    if d.matches text then ite (String-discrete (pii_type d.type) t) (1 + rest) rest else rest

unfoldable pub sightings_in_each : String → List PiiDetector → List String → ℕ
sightings_in_each t ds [] = 0
sightings_in_each t ds (text ∷ texts) = sightings_in t ds text + sightings_in_each t ds texts

-- How often the type is found in the texts of the spans.
unfoldable pub sightings : String → SpanProcessor → List RawSpan → ℕ
sightings t p [] = 0
sightings t p (span ∷ spans) =
    let handler = handler_for (attr attr_span_type span.attributes) p.handlers in
    sightings_in_each t p.pii_detectors (handler.pii_fields span.attributes) + sightings t p spans

-- A run invalidates if there is an invalidator and a span.
abbrev pub invalidates : Bool → List RawSpan → Bool
invalidates true (span ∷ spans) = true
invalidates _ spans = false

pub invalidates_lem :
    (b : Bool) (spans : List RawSpan) → b && is_nonempty spans ≡ invalidates b spans
invalidates_lem true [] = refl
invalidates_lem true (span ∷ spans) = refl
invalidates_lem false [] = refl
invalidates_lem false (span ∷ spans) = refl

module _ (t : String) where
  abbrev times : List PiiType → ℕ
  times ts = count String-discrete t (map pii_type ts)

  detect_piis-sightings :
      (ds : List PiiDetector) (text : String) → times (detect_piis ds text) ≡ sightings_in t ds text
  unfolding detect_piis sightings_in count
  detect_piis-sightings [] text = refl
  detect_piis-sightings (d ∷ ds) text = elim (Bool-cases (d.matches text)) [
    | inl m ↦ ground (
      arith,
      m,
      detect_piis-sightings ds text,
      count-cons String-discrete t (pii_type d.type) (map pii_type (detect_piis ds text)),
    )
    | inr m ↦ rw m (detect_piis-sightings ds text)
  ]

  found_in-sightings :
      (ds : List PiiDetector) (texts : List String)
      → times (found_in ds texts) ≡ sightings_in_each t ds texts
  unfolding found_in sightings_in_each count
  found_in-sightings ds [] = refl
  found_in-sightings ds (text ∷ texts) = omega (
    arith,
    count-found t (detect_piis ds text) (found_in ds texts),
    detect_piis-sightings ds text,
    found_in-sightings ds texts,
  )

  pub found_all-sightings :
      (p : SpanProcessor) (spans : List RawSpan) → times (found_all p spans) ≡ sightings t p spans
  unfolding found_all found_of sightings count
  found_all-sightings p [] = refl
  found_all-sightings p (span ∷ spans) =
      let texts =
        (handler_for (attr attr_span_type span.attributes) p.handlers).pii_fields span.attributes in
      omega (
        arith,
        count-found t (found_in p.pii_detectors texts) (found_all p spans),
        found_in-sightings p.pii_detectors texts,
        found_all-sightings p spans,
      )
