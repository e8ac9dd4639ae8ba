-- ===== src/Processor/Mentions.antt =====
-- backend/processor/processor.go: the component ids that a connection lists.
use alma_backend_task.Prelude.{
  String, Bool, true, false, ◌≡◌, ◌≢◌, refl, sym, ◌∙◌, subst, Option, none, some, List, [], ◌∷◌,
  ◌++◌, String-discrete, if_pos, if_neg, Bool-cases, Option-cases, inl, inr,
}
use Prim.Native.String.{◌++◌ as ◌+++◌}
use alma_backend_task.GoMap.{Map, get-put}
use alma_backend_task.Value.{strs}
use alma_backend_task.Db.Types.{Record, at, set_at}
use alma_backend_task.Db.Index.{contains}
use alma_backend_task.Processor.Accumulate.{
  append_unseen, merge_unique, connection_record, add_connection,
}
use alma_backend_task.Processor.Tied.{ids_of-set, ids_of-new}
use alma_backend_task.Api.Connections.{ids_of}

-- There is a record, and its component ids have the text.
abbrev pub Mentions : String → Option Record → Type 0
Mentions x o = (r : Record) × (o ≡ some r) × (contains x (ids_of r) ≡ true)

contains-append :
    (x : String) (xs ys : List String) → contains x xs ≡ true → contains x (xs ++ ys) ≡ true
unfolding contains
contains-append x [] ys h = cc h
contains-append x (y ∷ xs) ys h = elim (String-discrete y x) [
  | yes e ↦ if_pos (String-discrete y x) e true _
  | no n ↦
      if_neg {C = Bool} (String-discrete y x) n true (contains x (xs ++ ys))
      ∙ contains-append x xs ys
          (sym (if_neg {C = Bool} (String-discrete y x) n true (contains x xs)) ∙ h)
]

contains-last : (x : String) (xs : List String) → contains x (xs ++ x ∷ []) ≡ true
unfolding contains
contains-last x [] = if_pos (String-discrete x x) refl true false
contains-last x (y ∷ xs) = elim (String-discrete y x) [
  | yes e ↦ if_pos (String-discrete y x) e true _
  | no n ↦
      if_neg {C = Bool} (String-discrete y x) n true (contains x (xs ++ x ∷ []))
      ∙ contains-last x xs
]

append_unseen-old :
    (x : String) (seen ids out : List String)
    → contains x out ≡ true
    → contains x (append_unseen seen ids out) ≡ true
unfolding append_unseen
append_unseen-old x seen [] out h = h
append_unseen-old x seen (id ∷ ids) out h = elim (Bool-cases (contains id seen)) [
  | inl c ↦ rw c (append_unseen-old x seen ids out h)
  | inr c ↦ rw c (append_unseen-old x seen ids (out ++ id ∷ []) (contains-append x out (id ∷ []) h))
]

append_unseen-new :
    (x : String) (seen ids out : List String)
    → (contains x seen ≡ true → contains x out ≡ true)
    → contains x ids ≡ true
    → contains x (append_unseen seen ids out) ≡ true
unfolding append_unseen contains
append_unseen-new x seen [] out h k = cc k
append_unseen-new x seen (id ∷ ids) out h k = elim (Bool-cases (contains id seen)) [
  | inl c ↦ rw c (elim (String-discrete id x) [
    | yes e ↦ append_unseen-old x seen ids out (h (subst (λ i. contains i seen ≡ true) e c))
    | no n ↦
        append_unseen-new x seen ids out h
          (sym (if_neg {C = Bool} (String-discrete id x) n true (contains x ids)) ∙ k)
  ])
  | inr c ↦ rw c (elim (String-discrete id x) [
    | yes e ↦
        append_unseen-old x seen ids (out ++ id ∷ [])
          (subst (λ i. contains i (out ++ id ∷ []) ≡ true) e (contains-last id out))
    | no n ↦
        append_unseen-new x seen ids (out ++ id ∷ []) (λ s. contains-append x out (id ∷ []) (h s))
          (sym (if_neg {C = Bool} (String-discrete id x) n true (contains x ids)) ∙ k)
  ])
]

pub merge_unique-old :
    (x : String) (existing incoming : List String)
    → contains x existing ≡ true
    → contains x (merge_unique existing incoming) ≡ true
unfolding merge_unique
merge_unique-old x existing incoming h = append_unseen-old x existing incoming existing h

pub merge_unique-new :
    (x : String) (existing incoming : List String)
    → contains x incoming ≡ true
    → contains x (merge_unique existing incoming) ≡ true
unfolding merge_unique
merge_unique-new x existing incoming h = append_unseen-new x existing incoming existing (λ s. s) h

contains_self : (x : String) → contains x (x ∷ []) ≡ true
contains_self x = contains-last x []

-- A record that takes the ids of a list that has the text.
Mentions-set :
    (x k q : String) (ids : List String) (s : Record) (m : Map String Record)
    → k ≡ q
    → contains x ids ≡ true
    → Mentions x (at q (set_at k (set_at "component_ids" (strs ids) s) m))
Mentions-set x k q ids s m e h = (
  set_at "component_ids" (strs ids) s,
  rw (get-put, if_pos (String-discrete k q) e) refl,
  rw ids_of-set h,
)

kept_mention :
    (x k q : String) (r : Record) (m : Map String Record)
    → k ≢ q
    → Mentions x (at q m)
    → Mentions x (at q (set_at k r m))
kept_mention x k q r m n h = rw (get-put, if_neg (String-discrete k q) n) h

some_eq : {r s : Record} → ◌≡◌ {A = Option Record} (some r) (some s) → r ≡ s
some_eq e = cc e

pub mentioned :
    (x : String) (r : Record) (o : Option Record)
    → o ≡ some r
    → Mentions x o
    → contains x (ids_of r) ≡ true
mentioned x r o e (s, a, h) = subst (λ t. contains x (ids_of t) ≡ true) (some_eq (sym a ∙ e)) h

unmentioned : (x : String) (o : Option Record) {P : Type 0} → o ≡ none → Mentions x o → P
unmentioned x o e (s, a, h) = cc (e, a)

module _ (source destination id : String) (m : Map String Record) where
  -- What a connection lists before a span, it lists after it.
  pub add_connection-old :
      (x q : String)
      → Mentions x (at q m)
      → Mentions x (at q (add_connection source destination id m))
  unfolding add_connection
  add_connection-old x q h =
      let key = source +++ (":" +++ destination) in
      elim (Option-cases (at key m)) [
        | inl a ↦
            rw (a, add_connection)
              (elim (String-discrete key q) [
                | yes e ↦ unmentioned x (at q m) (subst (λ k. at k m ≡ none) e a) h
                | no n ↦ kept_mention x key q _ m n h
              ])
        | inr (existing, a) ↦
            rw (a, add_connection)
              (elim (String-discrete key q) [
                | yes e ↦ Mentions-set x key q _ existing m e (
                    merge_unique-old x (ids_of existing) (id ∷ [])
                      (mentioned x existing (at q m) (subst (λ k. at k m ≡ some existing) e a) h))
                | no n ↦ kept_mention x key q _ m n h
              ])
      ]

  -- The connection of a span lists the span's component.
  pub add_connection-new :
      Mentions id (at (source +++ (":" +++ destination)) (add_connection source destination id m))
  unfolding add_connection
  add_connection-new =
      let key = source +++ (":" +++ destination) in
      elim (Option-cases (at key m)) [
        | inl a ↦
            rw (a, add_connection)
              (
                connection_record key source destination (id ∷ []),
                rw (get-put, if_pos (String-discrete key key) refl) refl,
                rw ids_of-new (contains_self id),
              )
        | inr (existing, a) ↦
            rw (a, add_connection)
              (Mentions-set id key key _ existing m refl
                (merge_unique-new id (ids_of existing) (id ∷ []) (contains_self id)))
      ]
