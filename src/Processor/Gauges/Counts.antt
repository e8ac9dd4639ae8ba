-- ===== src/Processor/Gauges/Counts.antt =====
-- backend/processor/processor.go: the gauges beside the records that they count.
use alma_backend_task.Prelude.{
  ℕ, suc, zero, ◌+◌, String, ◌≡◌, refl, ◌∙◌, ap, Option, none, some, List, [], ◌∷◌, map, ok, ite,
  arith, count, length, String-discrete,
}
use alma_backend_task.GoMap
use alma_backend_task.GoMap.{Map, get-put}
use alma_backend_task.GoMap.Distinct.{IsMap, put-IsMap}
use alma_backend_task.Db.Types.{Record, Db, at, set_at}
use alma_backend_task.Metrics.{Gauges, or_zero}
use alma_backend_task.Processor.Waves.{IsServed}
use alma_backend_task.Processor.Gauges.{
  count_types, set_counts, record_gauges, record_gauges_from_db,
}
use alma_backend_task.Api.Types.{text_of}
use alma_backend_task.Service.Reads.{
  rows, all-rows, first_of, first_of-later, absent_later, fewer-IsMap,
}

-- How many of the records have the text in the field.
abbrev pub tally : String → String → List Record → ℕ
tally field t rs = count String-discrete t (map (text_of field) rs)

-- A number more, where there is one.
abbrev raised : Option ℕ → ℕ → Option ℕ
raised o zero = o
raised o (suc n) = some (or_zero o + suc n)

-- What a gauge reads: the count, or what it read before if there is none.
abbrev pub gauged : Option ℕ → ℕ → Option ℕ
gauged o zero = o
gauged o (suc n) = some (suc n)

raised-suc : (o : Option ℕ) (n : ℕ) → raised (some (or_zero o + 1)) n ≡ raised o (suc n)
raised-suc o zero = refl
raised-suc o (suc n) = ap (λ k. some k) (omega arith)

raised-step :
    (k t : String) (n : ℕ) (counts : Map String ℕ) (d : Dec (k ≡ t))
    → raised (ite d (some (or_zero (at k counts) + 1)) (at t counts)) n
      ≡ raised (at t counts) (ite d (suc n) n)
raised-step k t n counts (yes e) =
    ap (λ x. raised (some (or_zero (at x counts) + 1)) n) e ∙ raised-suc (at t counts) n
raised-step k t n counts (no m) = refl

at-count_types :
    (field t : String) (rs : List Record) (counts : Map String ℕ)
    → at t (count_types field rs counts) ≡ raised (at t counts) (tally field t rs)
unfolding count_types count
at-count_types field t [] counts = refl
at-count_types field t (r ∷ rs) counts =
    let k = text_of field r in
    at-count_types field t rs (set_at k (or_zero (at k counts) + 1) counts)
    ∙ rw get-put (raised-step k t (tally field t rs) counts (String-discrete k t))

count_types-IsMap :
    (field : String) (rs : List Record) (counts : Map String ℕ)
    → IsMap String-discrete counts
    → IsMap String-discrete (count_types field rs counts)
unfolding count_types
count_types-IsMap field [] counts h = h
count_types-IsMap field (r ∷ rs) counts h =
    count_types-IsMap field rs _ (put-IsMap String-discrete (text_of field r) _ counts h)

at-set_counts :
    (counts gauge : Map String ℕ) (t : String)
    → IsMap String-discrete counts
    → at t (set_counts counts gauge) ≡ first_of (at t counts) (at t gauge)
unfolding set_counts GoMap.get
at-set_counts [] gauge t d = refl
at-set_counts ((k, n) ∷ counts) gauge t d =
    rw (at-set_counts counts (set_at k n gauge) t (fewer-IsMap k n counts d), get-put)
      (first_of-later k t n (at t counts) (at t gauge) (String-discrete k t)
        (λ e. absent_later k t n counts d e))

first_of-raised : (o : Option ℕ) (n : ℕ) → first_of (raised none n) o ≡ gauged o n
first_of-raised o zero = refl
first_of-raised o (suc n) = ap (λ (k : ℕ). some k) (omega arith)

gauge_reads :
    (field t : String) (rs : List Record) (gauge : Map String ℕ)
    → at t (set_counts (count_types field rs []) gauge) ≡ gauged (at t gauge) (tally field t rs)
unfolding GoMap.get
gauge_reads field t rs gauge =
    at-set_counts (count_types field rs []) gauge t
      (count_types-IsMap field rs [] (λ k. unfold count in omega arith))
    ∙ (ap (λ o. first_of o (at t gauge)) (at-count_types field t rs [])
        ∙ first_of-raised (at t gauge) (tally field t rs))

-- The gauges after the records have been counted: for each type the number of the records, or what
-- the gauge read before if there is none.
pub record Gauged (items comps : List Record) (conns : ℕ) (g g' : Gauges) : Type 0 where
  pub app_items :
      (t : String)
      → at t g'.app_items_total ≡ gauged (at t g.app_items_total) (tally "type" t items)
  pub components :
      (t : String)
      → at t g'.components_total ≡ gauged (at t g.components_total) (tally "component_type" t comps)
  pub connections : g'.connections_total ≡ conns

record_gauges-Gauged :
    (items comps : List Record) (conns : ℕ) (g : Gauges)
    → Gauged items comps conns g (record_gauges items comps conns g)
unfolding record_gauges
record_gauges-Gauged items comps conns g = record {
  app_items = λ t. gauge_reads "type" t items g.app_items_total;
  components = λ t. gauge_reads "component_type" t comps g.components_total;
  connections = refl;
}

-- On a database with the four tables, `recordGaugesFromDB` sets the gauge of each type of app item
-- and of component to the number of the records of the type, and leaves that of a type which no
-- record has. The gauge of the connections is set to their number.
pub record_gauges_from_db-Gauged :
    (db : Db) (s : IsServed db) (g : Gauges)
    → (g' : Gauges) × (record_gauges_from_db db g ≡ ok g')
      × Gauged (rows s.app_items) (rows s.components) (length (rows s.connections)) g g'
unfolding record_gauges_from_db
record_gauges_from_db-Gauged db s g = (
  record_gauges (rows s.app_items) (rows s.components) (length (rows s.connections)) g,
  rw (all-rows s.app_items, all-rows s.components, all-rows s.connections) refl,
  record_gauges-Gauged (rows s.app_items) (rows s.components) (length (rows s.connections)) g,
)
