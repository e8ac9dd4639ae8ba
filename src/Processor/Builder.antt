-- ===== src/Processor/Builder.antt =====
-- backend/processor: `New` with its options, and the default detectors of pii.go. Compiling a pattern
-- and matching a text are the `regexp` package's, the parameter `compile`. A logger is left out.
use alma_backend_task.Prelude.{String, Bool, false, List, [], ◌∷◌}
use alma_backend_task.Value.{ℤ, pos}
use alma_backend_task.Models.{email, credit_card, ssn, phone, ip_address}
use alma_backend_task.Processor.Handlers.{
  SpanTypeHandler, default_handlers, with_span_handler, PiiDetector,
}
use alma_backend_task.Processor.Process.{SpanProcessor}

unfoldable pub default_pii_detectors : (String → String → Bool) → List PiiDetector
default_pii_detectors compile =
    record { type = email; matches = compile "\\b[\\w.%+\\-]+@[\\w.\\-]+\\.[a-zA-Z]{2,}\\b" }
    ∷ record {
      type = credit_card;
      matches = compile "\\b\\d{4}[- ]?\\d{4}[- ]?\\d{4}[- ]?\\d{4}\\b";
    }
    ∷ record { type = ssn; matches = compile "\\b\\d{3}-\\d{2}-\\d{4}\\b" }
    ∷ record {
      type = phone;
      matches = compile "\\b(\\+\\d{1,3}[- ]?)?\\(?\\d{3}\\)?[- ]?\\d{3}[- ]?\\d{4}\\b";
    }
    ∷ record {
      type = ip_address;
      matches = compile "\\b\\d{1,3}\\.\\d{1,3}\\.\\d{1,3}\\.\\d{1,3}\\b";
    }
    ∷ []

abbrev pub ProcessorOption : Type 0
ProcessorOption = SpanProcessor → SpanProcessor

unfoldable pub with_handler : String → SpanTypeHandler → ProcessorOption
with_handler span_type handler p = record p {
  handlers = with_span_handler span_type handler p.handlers;
}

unfoldable pub with_pii_detectors : List PiiDetector → ProcessorOption
with_pii_detectors detectors p = record p { pii_detectors = detectors }

-- The argument says whether the invalidator is not nil.
unfoldable pub with_cache_invalidator : Bool → ProcessorOption
with_cache_invalidator present p = record p { invalidator = present }

unfoldable pub with_batch_flush_threshold : ℤ → ProcessorOption
with_batch_flush_threshold n p = record p { batch_flush_threshold = n }

unfoldable pub apply_options : List ProcessorOption → ProcessorOption
apply_options [] p = p
apply_options (opt ∷ opts) p = apply_options opts (opt p)

unfoldable pub new_processor : (String → String → Bool) → List ProcessorOption → SpanProcessor
unfolding apply_options default_pii_detectors
new_processor compile opts = apply_options opts (record {
  handlers = default_handlers;
  pii_detectors = default_pii_detectors compile;
  batch_flush_threshold = pos 0;
  invalidator = false;
})
