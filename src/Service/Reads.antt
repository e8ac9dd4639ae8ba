-- ===== src/Service/Reads.antt =====
-- db/memory.go: what `All` gives on a database that has the table.
use alma_backend_task.Prelude.{
  ℕ, String, ◌≡◌, refl, sym, ◌∙◌, ap, Option, none, some, List, [], ◌∷◌, ok, All, count-cons,
  Option-cases, inl, inr, String-discrete, if_pos, arith, ite,
}
use alma_backend_task.GoMap
use alma_backend_task.GoMap.{Map, get-put}
use alma_backend_task.GoMap.Distinct.{IsMap, count-keys-some, entries}
use alma_backend_task.GoMap.Entries.{All-map, values-All}
use alma_backend_task.Db.Types.{Record, TableSchema, Db, at, set_at}
use alma_backend_task.Db.Query.{all}
use alma_backend_task.Db.Query.Whole.{all-found}
use alma_backend_task.Processor.Served.{Holds, records_of}
use alma_backend_task.Api.Types.{set_each}

-- The records of the table, in its order.
abbrev pub rows :
    {name : String} {schema : TableSchema} {db : Db} → Holds name schema db → List Record
rows h = GoMap.values h.table.records

pub all-rows :
    {name : String} {schema : TableSchema} {db : Db} (h : Holds name schema db)
    → all name db ≡ ok (rows h)
all-rows {name} {db = db} h = all-found name db h.table h.found

pub records_of-rows :
    {name : String} {schema : TableSchema} {db : Db} (h : Holds name schema db) (q : String)
    → records_of name db q ≡ at q h.table.records
records_of-rows h q = rw h.found refl

-- The second write to a key is over the first.
abbrev pub first_of : {V : Type 0} → Option V → Option V → Option V
first_of none o = o
first_of (some r) o = some r

pub first_of-later :
    {V : Type 0} (k q : String) (r : V) (o made : Option V) (d : Dec (k ≡ q))
    → (k ≡ q → o ≡ none)
    → first_of o (ite d (some r) made) ≡ first_of (ite d (some r) o) made
first_of-later k q r o made (yes e) h = rw (h e) refl
first_of-later k q r o made (no n) h = refl

pub absent_later :
    {V : Type 0} (k q : String) (r : V) (es : Map String V)
    → IsMap String-discrete ((k, r) ∷ es)
    → k ≡ q
    → at q es ≡ none
absent_later k q r es d e = elim (Option-cases (at q es)) [
  | inl n ↦ n
  | inr (s, a) ↦ absurd (
      omega (
        arith,
        d q,
        count-cons String-discrete q k (GoMap.keys es),
        if_pos {C = ℕ} (String-discrete k q) e 1 0,
        count-keys-some String-discrete q s es a,
      ))
]

pub fewer-IsMap :
    {V : Type 0} (k : String) (r : V) (es : Map String V)
    → IsMap String-discrete ((k, r) ∷ es)
    → IsMap String-discrete es
fewer-IsMap k r es d q = omega (arith, d q, count-cons String-discrete q k (GoMap.keys es))

abbrev pub mapped : {V : Type 0} → (Record → V) → Option Record → Option V
mapped f none = none
mapped f (some r) = some (f r)

pub mapped-same : (o : Option Record) → mapped (λ r. r) o ≡ o
mapped-same none = refl
mapped-same (some r) = refl

mapped-none : {V : Type 0} (f : Record → V) (o : Option Record) → o ≡ none → mapped f o ≡ none
mapped-none f o e = rw e refl

mapped-ite :
    {V : Type 0} {P : Type 0} (f : Record → V) (d : Dec P) (a b : Option Record)
    → ite d (mapped f a) (mapped f b) ≡ mapped f (ite d a b)
mapped-ite f (yes p) a b = refl
mapped-ite f (no n) a b = refl

-- A map that a loop fills reads as the table, where the loop's key of each record is its own.
at-set_each :
    {V : Type 0} (key : Record → String) (val : Record → V) (es : Map String Record)
    (made : Map String V) (q : String)
    → All (λ e. key e.1 ≡ e.0) es
    → IsMap String-discrete es
    → at q (set_each key val (GoMap.values es) made) ≡ first_of (mapped val (at q es)) (at q made)
unfolding set_each GoMap.get
at-set_each key val [] made q h d = refl
at-set_each key val ((k, r) ∷ es) made q h d =
    rw
      (
        at-set_each key val es (set_at (key r) (val r) made) q h.1 (fewer-IsMap k r es d),
        h.0,
        get-put,
      )
      (first_of-later k q (val r) (mapped val (at q es)) (at q made) (String-discrete k q)
          (λ e. mapped-none val (at q es) (absent_later k q r es d e))
        ∙ ap (λ o. first_of o (at q made))
            (mapped-ite val (String-discrete k q) (some r) (at q es)))

-- A property of every record, of the list of the records.
pub rows-All :
    (P : Record → Type 0) (m : Map String Record)
    → IsMap String-discrete m
    → ((k : String) (r : Record) → at k m ≡ some r → P r)
    → All P (GoMap.values m)
rows-All P m d h =
    values-All (λ e. at e.0 m ≡ some e.1) P (λ e p. h e.0 e.1 p) m (entries String-discrete m d)

first_of-none : {V : Type 0} (o : Option V) → first_of o none ≡ o
first_of-none none = refl
first_of-none (some r) = refl

pub at-set_each-rows :
    {V : Type 0} {name : String} {schema : TableSchema} {db : Db} (h : Holds name schema db)
    (key : Record → String) (val : Record → V) (q : String)
    → ((k : String) (r : Record) → records_of name db k ≡ some r → key r ≡ k)
    → at q (set_each key val (rows h) []) ≡ mapped val (records_of name db q)
unfolding GoMap.get
at-set_each-rows h key val q own =
    let m = h.table.records in
    at-set_each key val m [] q
      (All-map (λ e p. own e.0 e.1 (records_of-rows h e.0 ∙ p)) m
        (entries String-discrete m h.valid.distinct))
      h.valid.distinct
    ∙ (first_of-none (mapped val (at q m)) ∙ ap (mapped val) (sym (records_of-rows h q)))
