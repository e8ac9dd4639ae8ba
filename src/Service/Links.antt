-- ===== src/Service/Links.antt =====
-- backend/processor and backend/api: how the records of the four tables fit together, before and
-- after a flush.
use alma_backend_task.Prelude.{
  String, ◌≡◌, ◌≢◌, refl, sym, ◌∙◌, subst, Option, none, some, List, All, Option-cases, inl, inr,
  String-discrete,
}
use alma_backend_task.GoMap
use alma_backend_task.GoMap.{Map, get-put}
use alma_backend_task.GoMap.Entries.{All-map, values-All}
use alma_backend_task.Value.{str, sprint, as_strs}
use alma_backend_task.Db.Types.{Record, Db, at}
use alma_backend_task.Db.Coherence.{Lookup}
use alma_backend_task.Db.Validity.Rows.{merged, at-overlay}
use alma_backend_task.Db.Validity.Batches.{key_of, replayed}
use alma_backend_task.Db.Validity.Conflicts.{joined}
use alma_backend_task.Db.Validity.Replays.{Everywhere, replayed-Everywhere}
use alma_backend_task.Db.Validity.Carries.{Lasts, replayed-stays, replayed-comes}
use alma_backend_task.Db.Validity.Updates.{fields_result}
use alma_backend_task.Models.{RawSpan}
use alma_backend_task.Processor.Accumulate.{
  Accumulator, new_accumulator, accumulate_span, merge_unique, merge_unique_strings,
}
use alma_backend_task.Processor.Flush.{do_nothing, merge_ids, flush}
use alma_backend_task.Processor.Handlers.{Handlers, PiiDetector}
use alma_backend_task.Processor.Served.{records_of}
use alma_backend_task.Processor.Suited.{IsReady, new_accumulator-IsReady, accumulate_span-IsReady}
use alma_backend_task.Processor.Tied.{
  HasText, IsUnder, IsTo, HasEnds, HasParts, same_ends, IsTied, merge_unique-All, ids_of-set,
  new_accumulator-IsTied, accumulate_span-IsTied,
}
use alma_backend_task.Processor.Batches.{Stored}
use alma_backend_task.Processor.Waves.{IsServed, Flushes, flush-Flushes}
use alma_backend_task.Api.Connections.{ids_of}

-- The record holds its key in the field.
abbrev pub HasOwn : String → String → Record → Type 0
HasOwn field q r = at field r ≡ some (str q)

-- The component ids of the record are keys of the components.
abbrev pub Names : Lookup → String → Record → Type 0
Names comps q r = All (λ id. comps id ≢ none) (ids_of r)

pub record IsLinked (db : Db) : Type 0 where
  pub app_items : Everywhere (HasOwn "name") (records_of "app_items" db)
  pub components : Everywhere (HasOwn "id") (records_of "components" db)
  pub owners : Everywhere (λ _ r. HasText "app_item_name" r) (records_of "components" db)
  pub parts : Everywhere HasParts (records_of "components" db)
  pub carriers : Everywhere (λ _ r. HasText "component_id" r) (records_of "component_piis" db)
  pub ends : Everywhere HasEnds (records_of "connections" db)
  pub connections : Everywhere (Names (records_of "components" db)) (records_of "connections" db)

-- The record holds some key in the field.
abbrev Keyed : String → Record → Type 0
Keyed field r = (k : String) × HasOwn field k r

key_of-own : (field k : String) (r : Record) → HasOwn field k r → key_of field r ≡ k
unfolding sprint
key_of-own field k r h = rw h refl

merged-HasOwn :
    (field k : String) (r : Record) (o : Option Record)
    → HasOwn field k r
    → HasOwn field k (merged o r)
merged-HasOwn field k r none h = h
merged-HasOwn field k r (some s) h = rw (at-overlay, h) refl

merged-step :
    (field : String) (r : Record)
    → Keyed field r
    → (o : Option Record) → ((s : Record) → o ≡ some s → HasOwn field (key_of field r) s)
    → HasOwn field (key_of field r) (merged o r)
merged-step field r (k, h) o _ = rw (key_of-own field k r h) (merged-HasOwn field k r o h)

merged-HasText :
    (field : String) (r : Record)
    → HasText field r
    → (o : Option Record) → ((s : Record) → o ≡ some s → HasText field s)
    → HasText field (merged o r)
merged-HasText field r h none k = h
merged-HasText field r (t, h) (some s) k = (t, rw (at-overlay, h) refl)

nothing-HasText :
    (field : String) (r : Record)
    → HasText field r
    → (o : Option Record) → ((s : Record) → o ≡ some s → HasText field s)
    → HasText field (joined do_nothing o r)
unfolding do_nothing
nothing-HasText field r h none k = h
nothing-HasText field r h (some s) k = k s refl

-- A batch of records that hold texts in the field.
texts-Everywhere :
    (field key : String) (join : Option Record → Record → Record)
    → ((r : Record)
        → HasText field r
        → (o : Option Record) → ((s : Record) → o ≡ some s → HasText field s)
        → HasText field (join o r))
    → (m : Map String Record) (look : Lookup) → All (λ e. HasText field e.1) m
    → Everywhere (λ _ r. HasText field r) look
    → Everywhere (λ _ r. HasText field r) (replayed key join (GoMap.values m) look)
texts-Everywhere field key join step m look h hs =
    replayed-Everywhere key join (λ _ r. HasText field r) (HasText field) step (GoMap.values m) look
      (values-All (λ e. HasText field e.1) (HasText field) (λ e u. u) m h) hs

-- A batch of records under their own keys.
pub merged-Everywhere :
    (field : String) (m : Map String Record) (look : Lookup)
    → All (IsUnder field) m
    → Everywhere (HasOwn field) look
    → Everywhere (HasOwn field) (replayed field merged (GoMap.values m) look)
merged-Everywhere field m look h hs =
    replayed-Everywhere field merged (HasOwn field) (Keyed field) (merged-step field)
      (GoMap.values m) look (values-All (IsUnder field) (Keyed field) (λ e u. (e.0, u)) m h) hs

merged-HasParts :
    (k : String) (r : Record) (o : Option Record) → HasParts k r → HasParts k (merged o r)
merged-HasParts k r none h = h
merged-HasParts k r (some s) h = record {
  type = h.type;
  app_item = h.app_item;
  value = h.value;
  own = rw (at-overlay, h.own) refl;
  kind = rw (at-overlay, h.kind) refl;
  owner = rw (at-overlay, h.owner) refl;
  content = rw (at-overlay, h.content) refl;
  joined = h.joined;
}

-- A batch of components that have their parts.
parts-Everywhere :
    (m : Map String Record) (look : Lookup)
    → All (λ e. HasParts e.0 e.1) m
    → Everywhere HasParts look
    → Everywhere HasParts (replayed "id" merged (GoMap.values m) look)
parts-Everywhere m look h hs =
    replayed-Everywhere "id" merged HasParts (λ r. HasParts (key_of "id" r) r)
      (λ r h o _. merged-HasParts (key_of "id" r) r o h) (GoMap.values m) look
      (values-All (λ e. HasParts e.0 e.1) (λ r. HasParts (key_of "id" r) r)
        (λ e u. subst (λ q. HasParts q e.1) (sym (key_of-own "id" e.0 e.1 u.own)) u) m h)
      hs

ids-HasEnds :
    (q : String) (r : Record)
    → HasEnds q r
    → (o : Option Record) → ((s : Record) → o ≡ some s → HasEnds q s)
    → HasEnds q (joined merge_ids o r)
unfolding merge_ids fields_result GoMap.get String-discrete merge_unique_strings
ids-HasEnds q r h none k = h
ids-HasEnds q r h (some s) k = elim (Option-cases (at "component_ids" r)) [
  | inl e ↦ rw e (k s refl)
  | inr (new, e) ↦ rw e (same_ends q _ s (k s refl))
]

-- A batch of connections that have their ends.
ends-Everywhere :
    (m : Map String Record) (look : Lookup)
    → All (λ e. HasEnds e.0 e.1) m
    → Everywhere HasEnds look
    → Everywhere HasEnds (replayed "id" (joined merge_ids) (GoMap.values m) look)
ends-Everywhere m look h hs =
    replayed-Everywhere "id" (joined merge_ids) HasEnds (λ r. HasEnds (key_of "id" r) r)
      (λ r h o k. ids-HasEnds (key_of "id" r) r h o k) (GoMap.values m) look
      (values-All (λ e. HasEnds e.0 e.1) (λ r. HasEnds (key_of "id" r) r)
        (λ e u. subst (λ q. HasEnds q e.1) (sym (key_of-own "id" e.0 e.1 u.own)) u) m h)
      hs

-- There is a record, and a merge leaves one.
abbrev pub IsThere : Option Record → Type 0
IsThere o = o ≢ none

pub IsThere-Lasts : (join : Option Record → Record → Record) → Lasts join IsThere
IsThere-Lasts join = record {
  absent = λ h. h refl;
  stays = λ o r h e. cc e;
  comes = λ o r h e. cc e;
}

pub own_keys :
    (field : String) (m : Map String Record)
    → All (IsUnder field) m
    → All (λ e. key_of field e.1 ≡ e.0) m
own_keys field m h = All-map (λ e u. key_of-own field e.0 e.1 u) m h

Names-joined :
    (comps : Lookup) (q : String) (r : Record)
    → Names comps q r
    → (o : Option Record) → ((s : Record) → o ≡ some s → Names comps q s)
    → Names comps q (joined merge_ids o r)
unfolding merge_ids fields_result GoMap.get String-discrete merge_unique_strings
Names-joined comps q r h none k = h
Names-joined comps q r h (some s) k = elim (Option-cases (at "component_ids" r)) [
  | inl e ↦ rw e (k s refl)
  | inr (new, e) ↦ rw e (
      subst (All (λ id. comps id ≢ none))
        (sym (ids_of-set (merge_unique (ids_of s) (as_strs new)) s))
        (merge_unique-All (λ id. comps id ≢ none) (ids_of s) (as_strs new) (k s refl) (rw e at h)))
]

-- The ids that a flush stores are stored before the connections that name them.
flushed-Names :
    (acc : Accumulator) (db db' : Db)
    → IsTied acc
    → IsLinked db
    → Flushes acc db db'
    → Everywhere (Names (records_of "components" db')) (records_of "connections" db')
flushed-Names acc db db' t l f q s e =
    let comps = records_of "components" db' in
    let old = records_of "components" db in
    let arrived : (id : String) → at id acc.components ≢ none → comps id ≢ none = λ id h.
      subst IsThere (sym (f.components id)) (
        replayed-comes "id" merged IsThere (IsThere-Lasts merged) acc.components old id
          (own_keys "id" acc.components t.components) h) in
    let stayed : (id : String) → old id ≢ none → comps id ≢ none = λ id h.
      subst IsThere (sym (f.components id)) (
        replayed-stays "id" merged IsThere (IsThere-Lasts merged) (GoMap.values acc.components) old
          id h) in
    replayed-Everywhere "id" (joined merge_ids) (Names comps) (Names comps "")
      (λ r h o k. Names-joined comps (key_of "id" r) r h o k) (GoMap.values acc.connections)
      (records_of "connections" db)
      (values-All (IsTo acc.components) (Names comps "") (λ e. All-map arrived (ids_of e.1))
        acc.connections t.connections)
      (λ k r h. All-map stayed (ids_of r) (l.connections k r h)) q s (sym (f.connections q) ∙ e)

flushed-IsLinked :
    (acc : Accumulator) (db db' : Db) → IsTied acc → IsLinked db → Flushes acc db db' → IsLinked db'
flushed-IsLinked acc db db' t l f = record {
  app_items = λ q s e.
      merged-Everywhere "name" acc.app_items (records_of "app_items" db) t.app_items l.app_items q s
        (sym (f.app_items q) ∙ e);
  components = λ q s e.
      merged-Everywhere "id" acc.components (records_of "components" db) t.components l.components q
        s (sym (f.components q) ∙ e);
  owners = λ q s e.
      texts-Everywhere "app_item_name" "id" merged (merged-HasText "app_item_name") acc.components
        (records_of "components" db) t.owners l.owners q s (sym (f.components q) ∙ e);
  parts = λ q s e.
      parts-Everywhere acc.components (records_of "components" db) t.parts l.parts q s
        (sym (f.components q) ∙ e);
  ends = λ q s e.
      ends-Everywhere acc.connections (records_of "connections" db) t.ends l.ends q s
        (sym (f.connections q) ∙ e);
  carriers = λ q s e.
      texts-Everywhere "component_id" "id" (joined do_nothing) (nothing-HasText "component_id")
        acc.piis (records_of "component_piis" db) t.carriers l.carriers q s (sym (f.piis q) ∙ e);
  connections = flushed-Names acc db db' t l f;
}

-- The records of the accumulator suit their tables and fit together.
pub record IsSound (acc : Accumulator) : Type 0 where
  pub ready : IsReady acc
  pub tied : IsTied acc

-- The four tables are well formed, and their records fit together.
pub record IsWhole (db : Db) : Type 0 where
  pub served : IsServed db
  pub linked : IsLinked db

-- The accumulator is sound and the database whole.
abbrev pub Sound : Accumulator → Db → Type 0
Sound acc db = IsSound acc × IsWhole db

pub new_accumulator-IsSound : IsSound new_accumulator
new_accumulator-IsSound = record { ready = new_accumulator-IsReady; tied = new_accumulator-IsTied }

pub accumulate_span-IsSound :
    (handlers : Handlers) (detectors : List PiiDetector) (span : RawSpan) (acc : Accumulator)
    → IsSound acc
    → IsSound (accumulate_span handlers detectors span acc)
accumulate_span-IsSound handlers detectors span acc h = record {
  ready = accumulate_span-IsReady handlers detectors span acc h.ready;
  tied = accumulate_span-IsTied handlers detectors span acc h.tied;
}

-- A flush, with what it does, keeps the database whole.
pub flush-IsWhole :
    (acc : Accumulator) (db : Db)
    → Sound acc db
    → Stored db (λ _ db'. Flushes acc db db' × IsWhole db') (flush acc db)
flush-IsWhole acc db (a, d) =
    let (db', e, f) = flush-Flushes acc db a.ready d.served in
    (
      db',
      e,
      (f, record { served = f.served; linked = flushed-IsLinked acc db db' a.tied d.linked f }),
    )
