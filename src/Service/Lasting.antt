-- ===== src/Service/Lasting.antt =====
-- backend/processor: the component ids of a connection, at a flush.
use alma_backend_task.Prelude.{
  String, ◌≡◌, refl, Option, none, some, List, true, false, Option-cases, inl, inr, String-discrete,
}
use alma_backend_task.GoMap
use alma_backend_task.GoMap.{Map}
use alma_backend_task.Value.{strs, as_strs}
use alma_backend_task.Db.Types.{Record, at, set_at}
use alma_backend_task.Db.Index.{contains}
use alma_backend_task.Db.Validity.Conflicts.{joined}
use alma_backend_task.Db.Validity.Carries.{Lasts}
use alma_backend_task.Db.Validity.Updates.{fields_result}
use alma_backend_task.Processor.Accumulate.{merge_unique_strings}
use alma_backend_task.Processor.Flush.{merge_ids}
use alma_backend_task.Processor.Tied.{ids_of-set}
use alma_backend_task.Processor.Mentions.{Mentions, mentioned, merge_unique-old, merge_unique-new}
use alma_backend_task.Api.Connections.{ids_of}

Mentions-updated :
    (x : String) (ids : List String) (s : Record)
    → contains x ids ≡ true
    → Mentions x (some (set_at "component_ids" (strs ids) s))
Mentions-updated x ids s h = (set_at "component_ids" (strs ids) s, refl, rw ids_of-set h)

mention-stays :
    (x : String) (o : Option Record) (r : Record)
    → Mentions x o
    → Mentions x (some (joined merge_ids o r))
unfolding merge_ids fields_result GoMap.get String-discrete merge_unique_strings
mention-stays x none r (t, e, h) = cc e
mention-stays x (some s) r m = elim (Option-cases (at "component_ids" r)) [
  | inl n ↦ rw n m
  | inr (new, n) ↦ rw n (
      Mentions-updated x _ s
        (merge_unique-old x (ids_of s) (as_strs new) (mentioned x s (some s) refl m)))
]

mention-comes :
    (x : String) (o : Option Record) (r : Record)
    → Mentions x (some r)
    → Mentions x (some (joined merge_ids o r))
unfolding merge_ids fields_result GoMap.get String-discrete merge_unique_strings contains as_strs
mention-comes x none r m = m
mention-comes x (some s) r m = elim (Option-cases (at "component_ids" r)) [
  | inl n ↦
      let bad = mentioned x r (some r) refl m in
      let empty : contains x (ids_of r) ≡ false = rw n refl in cc (bad, empty)
  | inr (new, n) ↦
      let here : contains x (as_strs new) ≡ true = rw n at (mentioned x r (some r) refl m) in
      rw n (Mentions-updated x _ s (merge_unique-new x (ids_of s) (as_strs new) here))
]

pub Mentions-Lasts : (x : String) → Lasts (joined merge_ids) (Mentions x)
Mentions-Lasts x = record {
  absent = λ (r, e, h). cc e;
  stays = mention-stays x;
  comes = mention-comes x;
}
