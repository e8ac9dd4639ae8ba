-- ===== src/Service/Collisions.antt =====
-- backend/processor/processor.go: the id of a component, where a name or a value has a colon.
use text.Mathlib.TextLemmas.{append_assoc}
use alma_backend_task.Prelude.{String, ◌≡◌, refl, some, List, String-discrete, if_pos}
use Prim.Native.String.{◌++◌}
use alma_backend_task.GoMap.{get-put}
use alma_backend_task.Db.Types.{at}
use alma_backend_task.Models.{RawSpan, attr_span_type, ComponentType, component_type}
use alma_backend_task.Processor.Handlers.{attr, Handlers, PiiDetector, handler_for}
use alma_backend_task.Processor.Accumulate.{
  Accumulator, component_record, component_id_of, accumulate_span,
}
use alma_backend_task.Service.Spans.{destination_of, component_of}

-- What the handler of the span makes of it.
abbrev pub info_of : Handlers → RawSpan → ComponentType × String
info_of handlers span =
    (handler_for (attr attr_span_type span.attributes) handlers).component_info span.attributes

same_id :
    (type d x v : String)
    → component_id_of type d (x ++ (":" ++ v)) ≡ component_id_of type (d ++ (":" ++ x)) v
unfolding component_id_of
same_id type d x v = simp append_assoc refl

-- Two spans of one type of component, where the destination and the value of one, joined by a colon,
-- are split elsewhere by the other: both give one component, and the accumulator then has for it the
-- app item and the value of the later span alone.
pub accumulate_span-collision :
    (handlers : Handlers) (detectors : List PiiDetector) (span later : RawSpan) (acc : Accumulator)
    (type : ComponentType) (d x v : String)
    → destination_of span ≡ d
    → info_of handlers span ≡ (type, x ++ (":" ++ v))
    → destination_of later ≡ d ++ (":" ++ x)
    → info_of handlers later ≡ (type, v)
    → (component_of handlers span ≡ component_of handlers later)
      × (at
            (component_of handlers span)
            (accumulate_span handlers detectors later
              (accumulate_span handlers detectors span acc)).components
          ≡ some (
              component_record
                (component_of handlers later)
                (d ++ (":" ++ x))
                (component_type type)
                v))
unfolding accumulate_span
accumulate_span-collision handlers detectors span later acc type d x v a b c e =
    let same : component_of handlers span ≡ component_of handlers later =
      rw (a, b, c, e) (same_id (component_type type) d x v) in
    (
      same,
      rw
          (
            same,
            get-put,
            if_pos (String-discrete (component_of handlers later) (component_of handlers later))
                refl,
          )
          (rw (c, e) refl),
    )
