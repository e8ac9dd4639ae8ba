-- ===== src/Db/Validity/RoundTrips.antt =====
-- db/memory.go: what `Get` gives after a write.
use alma_backend_task.Prelude.{
  String, ◌≡◌, refl, Option, none, some, ok, err, arith, String-discrete, if_pos,
}
use alma_backend_task.Value.{Value, sprint}
use alma_backend_task.Db.Types.{Record, Table, Db, at, not_found}
use alma_backend_task.Db.Tables.{find_table}
use alma_backend_task.Db.Insert.{insert, delete, get_row, get}
use alma_backend_task.Db.Upsert.{upsert}
use alma_backend_task.Db.Coherence.{Lookup, updated}
use alma_backend_task.Db.Validity.{Fits, look_of, IsValid}
use alma_backend_task.Db.Validity.Rows.{merged}
use alma_backend_task.Db.Validity.Databases.{
  Changes, insert-Performs, upsert-Performs, delete-Performs,
}

written_here : (k : String) (o : Option Record) (look : Lookup) → updated k o look k ≡ o
written_here k o look = rw (if_pos (String-discrete k k) refl) refl

module _ {name : String} {db db' : Db} {t : Table} {look : Lookup} (pk : Value)
    (c : Changes name t look db db') where
  get-some : (r : Record) → look (sprint pk) ≡ some r → get name pk db' ≡ ok r
  unfolding get find_table get_row
  get-some r e = ground (arith, c.found, c.becomes.reads (sprint pk), e)

  get-none : look (sprint pk) ≡ none → get name pk db' ≡ err (not_found pk)
  unfolding get find_table get_row
  get-none e = ground (arith, c.found, c.becomes.reads (sprint pk), e)

module _ (name : String) (db : Db) (t : Table) (here : at name db.tables ≡ some t) (pk : Value)
    (v : IsValid t) where
  module _ (r : Record) (keyed : at t.schema.primary_key r ≡ some pk) (fit : Fits t.indexes r) where
    -- On a well-formed table, and a fitting record under a primary key that the table does not have,
    -- `Insert` returns no error, and `Get` of the key then gives the record.
    pub insert-get :
        at (sprint pk) t.records ≡ none
        → (db' : Db) × (insert name r db ≡ ok db') × (get name pk db' ≡ ok r)
    insert-get new =
        let (db', e, c) = insert-Performs name db t here r pk keyed v fit new in
        (db', e, get-some pk c r (written_here (sprint pk) _ (look_of t)))

    -- On a well-formed table, and a fitting record with a primary key, `Upsert` returns no error, and
    -- `Get` of the key then gives the record merged into the one that was there, if any.
    pub upsert-get :
        (db' : Db) × (upsert name r db ≡ ok db')
        × (get name pk db' ≡ ok (merged (at (sprint pk) t.records) r))
    upsert-get =
        let (db', e, c) = upsert-Performs name db t here r pk keyed v fit in
        (
          db',
          e,
          get-some pk c (merged (at (sprint pk) t.records) r)
              (written_here (sprint pk) _ (look_of t)),
        )

  -- On a well-formed table, `Delete` of a key returns no error, and `Get` of the key then gives the
  -- error that it is not found.
  pub delete-get :
      (db' : Db) × (delete name pk db ≡ ok db') × (get name pk db' ≡ err (not_found pk))
  delete-get =
      let (db', e, c) = delete-Performs name db t here pk v in
      (db', e, get-none pk c (written_here (sprint pk) _ (look_of t)))
