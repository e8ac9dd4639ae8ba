-- ===== src/Processor/Tied.antt =====
-- backend/processor/processor.go: how the records of the accumulator fit together: their keys, the
-- texts that name other records, and the component ids of a connection.
use alma_backend_task.Prelude.{
  String, ◌≡◌, ◌≢◌, refl, none, some, List, [], ◌∷◌, ◌++◌, All, String-discrete, Option-cases, inl,
  inr, if_pos, if_neg, Bool-cases,
}
use Prim.Native.String.{◌++◌ as ◌+++◌}
use alma_backend_task.GoMap
use alma_backend_task.GoMap.{Map, get-put}
use alma_backend_task.GoMap.Entries.{All-map, put-All, get-All, put-present, put-present_self}
use alma_backend_task.Value.{Value, str, strs, as_strs}
use alma_backend_task.Db.Types.{Record, at, set_at}
use alma_backend_task.Db.Index.{contains}
use alma_backend_task.Models.{RawSpan, PiiType, pii_type}
use alma_backend_task.Processor.Handlers.{Handlers, PiiDetector, detect_piis}
use alma_backend_task.Processor.Accumulate.{
  Accumulator, new_accumulator, append_unseen, merge_unique, app_item_record, component_record,
  connection_record, add_connection, component_id_of, accumulate_span, pii_record, add_pii,
  add_pii_types, add_piis,
}
use alma_backend_task.Api.Connections.{ids_of}

-- The record holds its key in the field.
abbrev pub IsUnder : String → String × Record → Type 0
IsUnder field e = at field e.1 ≡ some (str e.0)

-- The component ids of the record are keys of the map.
abbrev pub IsTo : Map String Record → String × Record → Type 0
IsTo comps e = All (λ id. at id comps ≢ none) (ids_of e.1)

-- The record holds some text in the field.
abbrev pub HasText : String → Record → Type 0
HasText field r = (s : String) × (at field r ≡ some (str s))

-- The record has its key, and two ends that are the key when a colon joins them.
pub record HasEnds (q : String) (r : Record) : Type 0 where
  pub source : String
  pub destination : String
  pub own : at "id" r ≡ some (str q)
  pub from : at "source" r ≡ some (str source)
  pub to : at "destination" r ≡ some (str destination)
  pub joined : source +++ (":" +++ destination) ≡ q

-- The record has its key, and a type, an app item and a value that are the key when colons join them.
pub record HasParts (q : String) (r : Record) : Type 0 where
  pub type : String
  pub app_item : String
  pub value : String
  pub own : at "id" r ≡ some (str q)
  pub kind : at "component_type" r ≡ some (str type)
  pub owner : at "app_item_name" r ≡ some (str app_item)
  pub content : at "value" r ≡ some (str value)
  pub joined : type +++ (":" +++ (app_item +++ (":" +++ value))) ≡ q

pub record IsTied (acc : Accumulator) : Type 0 where
  pub app_items : All (IsUnder "name") acc.app_items
  pub components : All (IsUnder "id") acc.components
  pub owners : All (λ e. HasText "app_item_name" e.1) acc.components
  pub parts : All (λ e. HasParts e.0 e.1) acc.components
  pub pii_keys : All (IsUnder "id") acc.piis
  pub carriers : All (λ e. HasText "component_id" e.1) acc.piis
  pub links : All (IsUnder "id") acc.connections
  pub ends : All (λ e. HasEnds e.0 e.1) acc.connections
  pub connections : All (IsTo acc.components) acc.connections

All-append {ℓ} :
    {A : Type ℓ} (P : A → Type 0) (xs ys : List A) → All P xs → All P ys → All P (xs ++ ys)
All-append P [] ys h k = k
All-append P (x ∷ xs) ys h k = (h.0, All-append P xs ys h.1 k)

append_unseen-All :
    (P : String → Type 0) (seen ids out : List String)
    → All P ids
    → All P out
    → All P (append_unseen seen ids out)
unfolding append_unseen
append_unseen-All P seen [] out h k = k
append_unseen-All P seen (id ∷ ids) out h k = elim (Bool-cases (contains id seen)) [
  | inl c ↦ rw c (append_unseen-All P seen ids out h.1 k)
  | inr c ↦
      rw c
        (append_unseen-All P seen ids (out ++ id ∷ []) h.1 (All-append P out (id ∷ []) k (h.0, tt)))
]

-- What `mergeUniqueStrings` gives has no other texts than the two lists.
pub merge_unique-All :
    (P : String → Type 0) (existing incoming : List String)
    → All P existing
    → All P incoming
    → All P (merge_unique existing incoming)
unfolding merge_unique
merge_unique-All P existing incoming h k = append_unseen-All P existing incoming existing k h

pub ids_of-set :
    (ids : List String) (r : Record) → ids_of (set_at "component_ids" (strs ids) r) ≡ ids
unfolding as_strs
ids_of-set ids r = rw (get-put, if_pos (String-discrete "component_ids" "component_ids") refl) refl

grown-IsTo :
    (k : String) (r : Record) (comps m : Map String Record)
    → All (IsTo comps) m
    → All (IsTo (set_at k r comps)) m
grown-IsTo k r comps m h =
    All-map (λ e. All-map (λ id. put-present String-discrete k id r comps) (ids_of e.1)) m h

pub ids_of-new :
    (key source destination : String) (ids : List String)
    → ids_of (connection_record key source destination ids) ≡ ids
unfolding connection_record GoMap.get String-discrete as_strs
ids_of-new key source destination ids = refl

add_connection-IsTo :
    (source destination id : String) (comps m : Map String Record)
    → at id comps ≢ none
    → All (IsTo comps) m
    → All (IsTo comps) (add_connection source destination id m)
unfolding add_connection
add_connection-IsTo source destination id comps m there h =
    let key = source +++ (":" +++ destination) in
    elim (Option-cases (at key m)) [
      | inl a ↦
          rw (a, add_connection)
            (put-All String-discrete (IsTo comps) key
              (connection_record key source destination (id ∷ [])) m (rw ids_of-new (there, tt)) h)
      | inr (existing, a) ↦
          rw (a, add_connection)
            (put-All String-discrete (IsTo comps) key _ m
              (rw ids_of-set (
                merge_unique-All (λ i. at i comps ≢ none) (ids_of existing) (id ∷ [])
                  (get-All String-discrete (IsTo comps) key existing m h a) (there, tt)))
              h)
    ]

own_link : (k s d : String) (ids : List String) → IsUnder "id" (k, connection_record k s d ids)
unfolding connection_record GoMap.get String-discrete
own_link k s d ids = refl

same_link :
    (k : String) (v : Value) (r : Record)
    → IsUnder "id" (k, r)
    → IsUnder "id" (k, set_at "component_ids" v r)
same_link k v r h = rw (get-put, if_neg (String-discrete "component_ids" "id") (λ e. cc)) h

add_connection-IsUnder :
    (source destination id : String) (m : Map String Record)
    → All (IsUnder "id") m
    → All (IsUnder "id") (add_connection source destination id m)
unfolding add_connection
add_connection-IsUnder source destination id m h =
    let key = source +++ (":" +++ destination) in
    elim (Option-cases (at key m)) [
      | inl a ↦
          rw (a, add_connection)
            (put-All String-discrete (IsUnder "id") key _ m
              (own_link key source destination (id ∷ [])) h)
      | inr (existing, a) ↦
          rw (a, add_connection)
            (put-All String-discrete (IsUnder "id") key _ m
              (same_link key _ existing (get-All String-discrete (IsUnder "id") key existing m h a))
              h)
    ]

new_ends :
    (s d : String) (ids : List String)
    → HasEnds (s +++ (":" +++ d)) (connection_record (s +++ (":" +++ d)) s d ids)
unfolding connection_record GoMap.get String-discrete
new_ends s d ids = record {
  source = s;
  destination = d;
  own = refl;
  from = refl;
  to = refl;
  joined = refl;
}

pub same_ends :
    (k : String) (v : Value) (r : Record) → HasEnds k r → HasEnds k (set_at "component_ids" v r)
same_ends k v r h = record {
  source = h.source;
  destination = h.destination;
  own = same_link k v r h.own;
  from = rw (get-put, if_neg (String-discrete "component_ids" "source") (λ e. cc)) h.from;
  to = rw (get-put, if_neg (String-discrete "component_ids" "destination") (λ e. cc)) h.to;
  joined = h.joined;
}

add_connection-HasEnds :
    (source destination id : String) (m : Map String Record)
    → All (λ e. HasEnds e.0 e.1) m
    → All (λ e. HasEnds e.0 e.1) (add_connection source destination id m)
unfolding add_connection
add_connection-HasEnds source destination id m h =
    let P : String × Record → Type 0 = λ e. HasEnds e.0 e.1 in
    let key = source +++ (":" +++ destination) in
    elim (Option-cases (at key m)) [
      | inl a ↦
          rw (a, add_connection)
            (put-All String-discrete P key _ m (new_ends source destination (id ∷ [])) h)
      | inr (existing, a) ↦
          rw (a, add_connection)
            (put-All String-discrete P key _ m
              (same_ends key _ existing (get-All String-discrete P key existing m h a)) h)
    ]

new_parts :
    (t d v : String)
    → HasParts (component_id_of t d v) (component_record (component_id_of t d v) d t v)
unfolding component_id_of component_record GoMap.get String-discrete
new_parts t d v = record {
  type = t;
  app_item = d;
  value = v;
  own = refl;
  kind = refl;
  owner = refl;
  content = refl;
  joined = refl;
}

under_name : (n : String) (t : _) → IsUnder "name" (n, app_item_record n t)
unfolding app_item_record GoMap.get String-discrete
under_name n t = refl

under_id : (id d t v : String) → IsUnder "id" (id, component_record id d t v)
unfolding component_record GoMap.get String-discrete
under_id id d t v = refl

has_owner : (id d t v : String) → HasText "app_item_name" (component_record id d t v)
unfolding component_record GoMap.get String-discrete
has_owner id d t v = (d, refl)

has_carrier : (id c t : String) → HasText "component_id" (pii_record id c t)
unfolding pii_record GoMap.get String-discrete
has_carrier id c t = (c, refl)

own_pii : (id c t : String) → IsUnder "id" (id, pii_record id c t)
unfolding pii_record GoMap.get String-discrete
own_pii id c t = refl

-- What holds of every new PII record, `accumulateSpan` keeps of all.
module _ (P : String × Record → Type 0)
    (made : (id component_id type : String) → P (id, pii_record id component_id type)) where
  add_pii-All :
      (id : String) (t : PiiType) (m : Map String Record) → All P m → All P (add_pii id t m)
  unfolding add_pii
  add_pii-All id t m h = elim (Option-cases (at (id +++ (":" +++ pii_type t)) m)) [
    | inl n ↦ rw (n, add_pii) (put-All String-discrete P _ _ m (made _ id _) h)
    | inr (r, e) ↦ rw (e, add_pii) h
  ]

  add_pii_types-All :
      (id : String) (ts : List PiiType) (m : Map String Record)
      → All P m
      → All P (add_pii_types id ts m)
  unfolding add_pii_types
  add_pii_types-All id [] m h = h
  add_pii_types-All id (t ∷ ts) m h =
      add_pii_types-All id ts (add_pii id t m) (add_pii-All id t m h)

  pub add_piis-All :
      (detectors : List PiiDetector) (id : String) (texts : List String) (m : Map String Record)
      → All P m
      → All P (add_piis detectors id texts m)
  unfolding add_piis
  add_piis-All detectors id [] m h = h
  add_piis-All detectors id (text ∷ texts) m h =
      add_piis-All detectors id texts _ (add_pii_types-All id (detect_piis detectors text) m h)

pub new_accumulator-IsTied : IsTied new_accumulator
unfolding new_accumulator
new_accumulator-IsTied = record {
  app_items = tt;
  components = tt;
  owners = tt;
  parts = tt;
  pii_keys = tt;
  carriers = tt;
  links = tt;
  ends = tt;
  connections = tt;
}

pub accumulate_span-IsTied :
    (handlers : Handlers) (detectors : List PiiDetector) (span : RawSpan) (acc : Accumulator)
    → IsTied acc
    → IsTied (accumulate_span handlers detectors span acc)
unfolding accumulate_span
accumulate_span-IsTied handlers detectors span acc h = record {
  app_items =
      put-All String-discrete (IsUnder "name") _ _ _ (under_name _ _)
        (put-All String-discrete (IsUnder "name") _ _ acc.app_items (under_name _ _) h.app_items);
  components =
      put-All String-discrete (IsUnder "id") _ _ acc.components (under_id _ _ _ _) h.components;
  owners =
      put-All String-discrete (λ e. HasText "app_item_name" e.1) _ _ acc.components
        (has_owner _ _ _ _) h.owners;
  links = add_connection-IsUnder _ _ _ acc.connections h.links;
  parts =
      put-All String-discrete (λ e. HasParts e.0 e.1) _ _ acc.components (new_parts _ _ _) h.parts;
  ends = add_connection-HasEnds _ _ _ acc.connections h.ends;
  pii_keys = add_piis-All (IsUnder "id") own_pii detectors _ _ acc.piis h.pii_keys;
  carriers =
      add_piis-All (λ e. HasText "component_id" e.1) has_carrier detectors _ _ acc.piis h.carriers;
  connections =
      add_connection-IsTo _ _ _ _ acc.connections
        (put-present_self String-discrete _ _ acc.components)
        (grown-IsTo _ _ acc.components acc.connections h.connections);
}
