-- ===== src/Processor/Waves.antt =====
-- backend/processor/processor.go: `flush` on a database with the four tables of
-- schema/schema.go.
use alma_backend_task.Prelude.{String, ◌≡◌, ◌≢◌, refl, ◌∙◌, ap, Option, List, [], ok}
use alma_backend_task.GoMap
use alma_backend_task.GoMap.{Map}
use alma_backend_task.Schema
use alma_backend_task.Db.Types.{Record, TableSchema, Db, Outcome, at}
use alma_backend_task.Db.Validity.Rows.{merged}
use alma_backend_task.Db.Validity.Batches.{replayed}
use alma_backend_task.Db.Validity.Conflicts.{joined}
use alma_backend_task.Processor.Accumulate.{Accumulator}
use alma_backend_task.Processor.Flush.{
  do_nothing, merge_ids, Flushed, wave, flush_items, flush_components, flush_piis,
  flush_connections, next_wave, flush,
}
use alma_backend_task.Processor.Served.{Holds, records_of, Stores, Holds-same, records_of-same}
use alma_backend_task.Processor.Suited.{IsReady}
use alma_backend_task.Processor.Batches.{
  Stored, flush_items-Stores, flush_components-Stores, flush_piis-Stores, flush_connections-Stores,
}

-- The four tables are there, well formed.
pub record IsServed (db : Db) : Type 0 where
  pub app_items : Holds "app_items" Schema.app_items db
  pub components : Holds "components" Schema.components db
  pub piis : Holds "component_piis" Schema.component_piis db
  pub connections : Holds "connections" Schema.connections db

-- The accumulator has been joined into the four tables.
pub record Flushes (acc : Accumulator) (db db' : Db) : Type 0 where
  pub served : IsServed db'
  pub app_items :
      (q : String)
      → records_of "app_items" db' q
        ≡ replayed "name" merged (GoMap.values acc.app_items) (records_of "app_items" db) q
  pub components :
      (q : String)
      → records_of "components" db' q
        ≡ replayed "id" merged (GoMap.values acc.components) (records_of "components" db) q
  pub piis :
      (q : String)
      → records_of "component_piis" db' q
        ≡ replayed "id"
            (joined do_nothing)
            (GoMap.values acc.piis)
            (records_of "component_piis" db)
            q
  pub connections :
      (q : String)
      → records_of "connections" db' q
        ≡ replayed "id"
            (joined merge_ids)
            (GoMap.values acc.connections)
            (records_of "connections" db)
            q

-- A batch between two parts of the flush that leave its table as it is.
between :
    (name : String) {schema : TableSchema} (join : Option Record → Record → Record)
    (rs : List Record) (db db₁ db₂ db₃ : Db)
    → at name db₁.tables ≡ at name db.tables
    → Stores name schema join rs db₁ db₂
    → at name db₃.tables ≡ at name db₂.tables
    → ((q : String)
        → records_of name db₃ q ≡ replayed schema.primary_key join rs (records_of name db) q)
      × Holds name schema db₃
between name {schema} join rs db db₁ db₂ db₃ before s after = (
  λ q.
      ap (λ l. l q) (records_of-same name db₂ db₃ after)
      ∙ (s.reads q
          ∙ ap (λ l. replayed schema.primary_key join rs l q) (records_of-same name db db₁ before)),
  Holds-same after s.holds,
)

module _ (acc : Accumulator) where
  record First (db db₂ : Db) : Type 0 where
    mid : Db
    items : Stores "app_items" Schema.app_items merged (GoMap.values acc.app_items) db mid
    comps : Stores "components" Schema.components merged (GoMap.values acc.components) mid db₂

  record Second (db db₂ : Db) : Type 0 where
    mid : Db
    piis :
        Stores "component_piis" Schema.component_piis
          (joined do_nothing)
          (GoMap.values acc.piis)
          db
          mid
    conns :
        Stores "connections" Schema.connections
          (joined merge_ids)
          (GoMap.values acc.connections)
          mid
          db₂

  both :
      (first second : Db → Outcome Flushed) (db db₁ db₂ : Db)
      → first db ≡ ok (db₁, [])
      → second db₁ ≡ ok (db₂, [])
      → wave first second db ≡ ok (db₂, [])
  unfolding wave
  both first second db db₁ db₂ e₁ e₂ = rw (e₁, e₂) refl

  wave-First :
      (db : Db)
      → IsReady acc
      → IsServed db
      → Stored db First (wave (flush_items acc) (flush_components acc) db)
  wave-First db r s = go (flush_items-Stores acc db r s.app_items)
    where
      go :
          Stored db
            (Stores "app_items" Schema.app_items merged (GoMap.values acc.app_items))
            (flush_items acc db)
          → Stored db First (wave (flush_items acc) (flush_components acc) db)
      go (db₁, e₁, a) =
          let (db₂, e₂, b) =
            flush_components-Stores acc db₁ r
              (Holds-same (a.others "components" (λ e. cc)) s.components) in
          (
            db₂,
            both (flush_items acc) (flush_components acc) db db₁ db₂ e₁ e₂,
            record { mid = db₁; items = a; comps = b },
          )

  wave-Second :
      (db : Db)
      → IsReady acc
      → Holds "component_piis" Schema.component_piis db
      → Holds "connections" Schema.connections db
      → Stored db Second (wave (flush_piis acc) (flush_connections acc) db)
  wave-Second db r p c = go (flush_piis-Stores acc db r p)
    where
      go :
          Stored db
            (Stores "component_piis" Schema.component_piis
              (joined do_nothing)
              (GoMap.values acc.piis))
            (flush_piis acc db)
          → Stored db Second (wave (flush_piis acc) (flush_connections acc) db)
      go (db₁, e₁, a) =
          let (db₂, e₂, b) =
            flush_connections-Stores acc db₁ r (Holds-same (a.others "connections" (λ e. cc)) c) in
          (
            db₂,
            both (flush_piis acc) (flush_connections acc) db db₁ db₂ e₁ e₂,
            record { mid = db₁; piis = a; conns = b },
          )

  -- What a wave leaves of the tables of the other.
  First-others :
      {db db₂ : Db} (w : First db db₂) (other : String)
      → ◌≢◌ {A = String} "app_items" other
      → ◌≢◌ {A = String} "components" other
      → at other db₂.tables ≡ at other db.tables
  First-others w other n m = w.comps.others other m ∙ w.items.others other n

  Second-others :
      {db db₂ : Db} (w : Second db db₂) (other : String)
      → ◌≢◌ {A = String} "component_piis" other
      → ◌≢◌ {A = String} "connections" other
      → at other db₂.tables ≡ at other db.tables
  Second-others w other n m = w.conns.others other m ∙ w.piis.others other n

  waves-Flushes : (db db₁ db₂ : Db) → First db db₁ → Second db₁ db₂ → Flushes acc db db₂
  unfolding Schema.app_items Schema.components Schema.component_piis Schema.connections
  waves-Flushes db db₁ db₂ v w =
      let items =
        between "app_items" merged (GoMap.values acc.app_items) db db v.mid db₂ refl v.items (
          Second-others w "app_items" (λ e. cc) (λ e. cc) ∙ v.comps.others "app_items" (λ e. cc)) in
      let comps =
        between "components" merged (GoMap.values acc.components) db v.mid db₁ db₂
          (v.items.others "components" (λ e. cc)) v.comps
          (Second-others w "components" (λ e. cc) (λ e. cc)) in
      let piis =
        between "component_piis" (joined do_nothing) (GoMap.values acc.piis) db db₁ w.mid db₂
          (First-others v "component_piis" (λ e. cc) (λ e. cc)) w.piis
          (w.conns.others "component_piis" (λ e. cc)) in
      let conns =
        between "connections" (joined merge_ids) (GoMap.values acc.connections) db w.mid db₂ db₂
          (w.piis.others "connections" (λ e. cc) ∙ First-others v "connections" (λ e. cc) (λ e. cc))
          w.conns refl in
      record {
        served = record {
          app_items = items.1;
          components = comps.1;
          piis = piis.1;
          connections = conns.1;
        };
        app_items = items.0;
        components = comps.0;
        piis = piis.0;
        connections = conns.0;
      }

  flush_lem :
      (db db₁ db₂ : Db)
      → wave (flush_items acc) (flush_components acc) db ≡ ok (db₁, [])
      → wave (flush_piis acc) (flush_connections acc) db₁ ≡ ok (db₂, [])
      → flush acc db ≡ ok (db₂, [])
  unfolding flush next_wave
  flush_lem db db₁ db₂ e₁ e₂ = rw (e₁, next_wave) e₂

  pub flush-Flushes : (db : Db) → IsReady acc → IsServed db → Stored db (Flushes acc) (flush acc db)
  flush-Flushes db r s = go (wave-First db r s)
    where
      go :
          Stored db First (wave (flush_items acc) (flush_components acc) db)
          → Stored db (Flushes acc) (flush acc db)
      go (db₁, e₁, v) =
          let (db₂, e₂, w) =
            wave-Second db₁ r
              (Holds-same (First-others v "component_piis" (λ e. cc) (λ e. cc)) s.piis)
              (Holds-same (First-others v "connections" (λ e. cc) (λ e. cc)) s.connections) in
          (db₂, flush_lem db db₁ db₂ e₁ e₂, waves-Flushes db db₁ db₂ v w)
