-- ===== src/Service/Held.antt =====
-- backend/processor: the records of a span, in the accumulator or in the database.
use alma_backend_task.Prelude.{
  String, ◌≡◌, ◌≢◌, refl, sym, subst, Option, none, List, [], All, ◌⊎◌, inl, inr, String-discrete,
}
use alma_backend_task.GoMap
use alma_backend_task.GoMap.{Map}
use alma_backend_task.GoMap.Entries.{put-present, put-present_self}
use alma_backend_task.Db.Types.{Record, Db, at}
use alma_backend_task.Db.Coherence.{Lookup}
use alma_backend_task.Db.Validity.Rows.{merged}
use alma_backend_task.Db.Validity.Batches.{replayed}
use alma_backend_task.Db.Validity.Conflicts.{joined}
use alma_backend_task.Db.Validity.Carries.{Lasts, replayed-stays, replayed-comes}
use alma_backend_task.Models.{RawSpan}
use alma_backend_task.Processor.Handlers.{Handlers, PiiDetector}
use alma_backend_task.Processor.Accumulate.{Accumulator, new_accumulator, accumulate_span}
use alma_backend_task.Processor.Flush.{do_nothing, merge_ids}
use alma_backend_task.Processor.Served.{records_of}
use alma_backend_task.Processor.Tied.{IsUnder, IsTied}
use alma_backend_task.Processor.Mentions.{Mentions, add_connection-old, add_connection-new}
use alma_backend_task.Processor.Detections.{Found, Found-map, add_piis-old, add_piis-new}
use alma_backend_task.Processor.Waves.{Flushes}
use alma_backend_task.Service.Lasting.{Mentions-Lasts}
use alma_backend_task.Service.Links.{IsThere, IsThere-Lasts, own_keys}
use alma_backend_task.Service.Spans.{
  source_of, destination_of, link_of, component_of, texts_of, PiiStored, Covers,
}

-- The record is in the accumulator or in the database.
abbrev pub Held : (Option Record → Type 0) → String → Map String Record → Lookup → Type 0
Held P q m look = P (at q m) ⊎ P (look q)

abbrev pub PiiHeld : Accumulator → Db → String → Type 0
PiiHeld acc db q = Held IsThere q acc.piis (records_of "component_piis" db)

pub record IsHeld (handlers : Handlers) (detectors : List PiiDetector) (acc : Accumulator) (db : Db)
    (span : RawSpan) : Type 0 where
  pub source : Held IsThere (source_of span) acc.app_items (records_of "app_items" db)
  pub destination : Held IsThere (destination_of span) acc.app_items (records_of "app_items" db)
  pub component :
      Held IsThere (component_of handlers span) acc.components (records_of "components" db)
  pub connection :
      Held
        (Mentions (component_of handlers span))
        (link_of span)
        acc.connections
        (records_of "connections" db)
  pub piis : Found (PiiHeld acc db) detectors (component_of handlers span) (texts_of handlers span)

-- A batch that holds the record stores it.
flushed :
    (field : String) (join : Option Record → Record → Record) (P : Option Record → Type 0)
    (m : Map String Record) (look : Lookup) (q : String) (o : Option Record)
    → Lasts join P
    → All (IsUnder field) m
    → o ≡ replayed field join (GoMap.values m) look q
    → Held P q m look
    → P o
flushed field join P m look q o lasts own e (inl h) =
    subst P (sym e) (replayed-comes field join P lasts m look q (own_keys field m own) h)
flushed field join P m look q o lasts own e (inr h) =
    subst P (sym e) (replayed-stays field join P lasts (GoMap.values m) look q h)

in_database :
    (P : Option Record → Type 0) (q : String) (look : Lookup)
    → ¬ P none
    → Held P q [] look
    → P (look q)
unfolding GoMap.get
in_database P q look absent (inl h) = absurd (absent h)
in_database P q look absent (inr h) = h

grown : {P Q R : Type 0} → (P → Q) → P ⊎ R → Q ⊎ R
grown f (inl h) = inl (f h)
grown f (inr h) = inr h

module _ (handlers : Handlers) (detectors : List PiiDetector) where
  pub flushed-Covers :
      (acc : Accumulator) (db db' : Db) (span : RawSpan)
      → IsTied acc
      → Flushes acc db db'
      → IsHeld handlers detectors acc db span
      → Covers handlers detectors db' span
  flushed-Covers acc db db' span t f h =
      let items = records_of "app_items" db in
      let named = λ (q : String) (x : Held IsThere q acc.app_items items).
        flushed "name" merged IsThere acc.app_items items q _ (IsThere-Lasts merged) t.app_items
          (f.app_items q) x in
      let id = component_of handlers span in
      record {
        source = named (source_of span) h.source;
        destination = named (destination_of span) h.destination;
        component =
            flushed "id" merged IsThere acc.components (records_of "components" db) id _
              (IsThere-Lasts merged) t.components (f.components id) h.component;
        connection =
            flushed "id" (joined merge_ids) (Mentions id) acc.connections
              (records_of "connections" db) (link_of span) _ (Mentions-Lasts id) t.links
              (f.connections (link_of span)) h.connection;
        piis =
            Found-map (PiiHeld acc db) (PiiStored db') detectors id (texts_of handlers span)
              (λ q x.
                flushed "id" (joined do_nothing) IsThere acc.piis (records_of "component_piis" db) q
                  _ (IsThere-Lasts (joined do_nothing)) t.pii_keys (f.piis q) x)
              h.piis;
      }

  pub covered-IsHeld :
      (db : Db) (span : RawSpan)
      → Covers handlers detectors db span
      → IsHeld handlers detectors new_accumulator db span
  covered-IsHeld db span c = record {
    source = inr c.source;
    destination = inr c.destination;
    component = inr c.component;
    connection = inr c.connection;
    piis =
        Found-map (PiiStored db) (PiiHeld new_accumulator db) detectors (component_of handlers span)
          (texts_of handlers span) (λ q x. inr x) c.piis;
  }

  -- The accumulator is empty, so it is the database that has the records.
  pub held-Covers :
      (db : Db) (span : RawSpan)
      → IsHeld handlers detectors new_accumulator db span
      → Covers handlers detectors db span
  unfolding new_accumulator
  held-Covers db span h = record {
    source =
        in_database IsThere (source_of span) (records_of "app_items" db) (λ t. t refl) h.source;
    destination =
        in_database IsThere (destination_of span) (records_of "app_items" db) (λ t. t refl)
          h.destination;
    component =
        in_database IsThere (component_of handlers span) (records_of "components" db) (λ t. t refl)
          h.component;
    connection =
        in_database (Mentions (component_of handlers span)) (link_of span)
          (records_of "connections" db) (λ (r, e, m). cc e) h.connection;
    piis =
        Found-map (PiiHeld new_accumulator db) (PiiStored db) detectors (component_of handlers span)
          (texts_of handlers span)
          (λ q x. in_database IsThere q (records_of "component_piis" db) (λ t. t refl) x) h.piis;
  }

  module _ (span : RawSpan) (acc : Accumulator) (db : Db) where
    pub accumulate_span-old :
        (other : RawSpan)
        → IsHeld handlers detectors acc db other
        → IsHeld handlers detectors (accumulate_span handlers detectors span acc) db other
    unfolding accumulate_span
    accumulate_span-old other h =
        let items = records_of "app_items" db in
        let acc' = accumulate_span handlers detectors span acc in
        let named : (q : String)
            → Held IsThere q acc.app_items items
            → Held IsThere q acc'.app_items items =
          λ q. grown (λ t.
            put-present String-discrete (destination_of span) q _ _
              (put-present String-discrete (source_of span) q _ acc.app_items t)) in
        record {
          source = named (source_of other) h.source;
          destination = named (destination_of other) h.destination;
          component =
              grown
                (λ t.
                  put-present String-discrete _ (component_of handlers other) _ acc.components t)
                h.component;
          connection =
              grown
                (λ t.
                  add_connection-old _ _ _ acc.connections (component_of handlers other)
                    (link_of other) t)
                h.connection;
          piis =
              Found-map (PiiHeld acc db) (PiiHeld (accumulate_span handlers detectors span acc) db)
                detectors (component_of handlers other) (texts_of handlers other)
                (λ q. grown (λ t.
                  add_piis-old detectors (component_of handlers span) (texts_of handlers span)
                    acc.piis q t))
                h.piis;
        }

    pub accumulate_span-new :
        IsHeld handlers detectors (accumulate_span handlers detectors span acc) db span
    unfolding accumulate_span
    accumulate_span-new = record {
      source = inl (
          put-present String-discrete _ _ _ _ (put-present_self String-discrete _ _ acc.app_items));
      destination = inl (put-present_self String-discrete _ _ _);
      component = inl (put-present_self String-discrete _ _ acc.components);
      connection = inl (add_connection-new _ _ _ acc.connections);
      piis =
          Found-map (λ q. at q (accumulate_span handlers detectors span acc).piis ≢ none)
            (PiiHeld (accumulate_span handlers detectors span acc) db) detectors
            (component_of handlers span) (texts_of handlers span) (λ q t. inl t)
            (add_piis-new detectors (component_of handlers span) (texts_of handlers span) acc.piis);
    }
