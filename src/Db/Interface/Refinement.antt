-- ===== src/Db/Interface/Refinement.antt =====
-- db/interface.go: when a database is sound, and when what a call gives agrees with what is promised.
use alma_backend_task.Prelude.{
  String, ◌≡◌, ◌≢◌, ◌⊎◌, refl, sym, ◌∙◌, ap, subst, fun_ext, Option, none, some, ok, err,
  String-discrete, if_pos, if_neg, inl, inr, Option-cases,
}
use alma_backend_task.Db.Types.{TableSchema, Table, Db, Error, Outcome, no_table, at}
use alma_backend_task.Db.Coherence.{Lookup}
use alma_backend_task.Db.Validity.{IsValid, look_of}
use alma_backend_task.Db.Validity.Databases.{Changes, Performs}
use alma_backend_task.Db.Validity.Schemas.{IndexedBy}
use alma_backend_task.Db.Interface.Contents.{Sheet, Contents, sheet, view, replaced, on_sheet}

-- A table that the methods have made from its schema.
pub record IsStored (t : Table) : Type 0 where
  pub valid : IsValid t
  pub indexed : IndexedBy t.schema t.indexes

pub record IsSound (db : Db) : Type 0 where
  pub stored : (name : String) (t : Table) → at name db.tables ≡ some t → IsStored t

-- The call returns a good state, which is seen as the promised one, or the promised error.
abbrev pub Agrees :
    {S : Type 0} → (S → Type 0) → (S → Contents) → Outcome S → Outcome Contents → Type 0
Agrees {S} IsGood seen out promise =
    ((s : S) × (out ≡ ok s) × (promise ≡ ok (seen s)) × IsGood s)
    ⊎ ((e : Error) × (out ≡ err e) × (promise ≡ err e))

abbrev pub AgreesDb : Outcome Db → Outcome Contents → Type 0
AgreesDb = Agrees IsSound view

abbrev pub seen_as : TableSchema → Lookup → Option Sheet
seen_as schema look = some (record { schema = schema; look = look })

changed-sheet :
    (t t' : Table) (look : Lookup)
    → t'.schema ≡ t.schema
    → ((q : String) → at q t'.records ≡ look q)
    → sheet (some t') ≡ seen_as t.schema look
changed-sheet t t' look e h = ap (λ s. seen_as s (look_of t')) e ∙ ap (seen_as t.schema) (fun_ext h)

pub view-replaced :
    (name : String) (o : Option Sheet) (db db' : Db)
    → sheet (at name db'.tables) ≡ o
    → ((other : String) → name ≢ other → at other db'.tables ≡ at other db.tables)
    → view db' ≡ replaced name o (view db)
view-replaced name o db db' here others = fun_ext (λ other. elim (String-discrete name other) [
  | yes p ↦
      ap (λ k. sheet (at k db'.tables)) (sym p)
      ∙ here
      ∙ sym (if_pos (String-discrete name other) p _ _)
  | no n ↦ ap sheet (others other n) ∙ sym (if_neg (String-discrete name other) n _ _)
])

pub IsSound-replaced :
    (name : String) (db db' : Db)
    → ((t : Table) → at name db'.tables ≡ some t → IsStored t)
    → ((other : String) → name ≢ other → at other db'.tables ≡ at other db.tables)
    → IsSound db
    → IsSound db'
IsSound-replaced name db db' here others sound = record {
  stored = λ other t p. elim (String-discrete name other) [
    | yes e ↦ here t (ap (λ k. at k db'.tables) e ∙ p)
    | no n ↦ sound.stored other t (sym (others other n) ∙ p)
  ];
}

module _ {name : String} {t : Table} {look : Lookup} {db db' : Db}
    (c : Changes name t look db db') where
  Changes-view : view db' ≡ replaced name (seen_as t.schema look) (view db)
  Changes-view =
      view-replaced name (seen_as t.schema look) db db'
        (ap sheet c.found ∙ changed-sheet t c.table look c.becomes.schema c.becomes.reads) c.others

  Changes-IsStored : IsStored t → IsStored c.table
  Changes-IsStored old = record {
    valid = c.becomes.valid;
    indexed = λ f p. rw c.becomes.schema (old.indexed f (c.becomes.indexed f p));
  }

  Changes-IsSound : IsStored t → IsSound db → IsSound db'
  Changes-IsSound old =
      IsSound-replaced name db db'
        (λ u p.
          let same : c.table ≡ u = cc (c.found, p) in subst IsStored same (Changes-IsStored old))
        c.others

-- What a method does on its table, and what is promised there.
abbrev pub AgreesAt : String → Db → Table → Outcome Db → Outcome Lookup → Type 0
AgreesAt name db t out promise =
    ((look : Lookup) × Performs name t look db out × (promise ≡ ok look))
    ⊎ ((e : Error) × (out ≡ err e) × (promise ≡ err e))

pub on_sheet-Agrees :
    (name : String) (db : Db) (out : Outcome Db) (change : Sheet → Outcome Lookup)
    → IsSound db
    → (at name db.tables ≡ none → out ≡ err (no_table name))
    → ((t : Table)
        → at name db.tables ≡ some t
        → IsStored t
        → AgreesAt name db t out (change (record { schema = t.schema; look = look_of t })))
    → AgreesDb out (on_sheet name change (view db))
unfolding on_sheet
on_sheet-Agrees name db out change sound missing there = elim (Option-cases (at name db.tables)) [
  | inl e ↦ inr (no_table name, missing e, rw e refl)
  | inr (t, e) ↦ elim (there t e (sound.stored name t e)) [
    | inl (look, p, h) ↦
        let (db', e', c) = p in
        inl
          (db', e', rw (e, h, Changes-view c) refl, Changes-IsSound c (sound.stored name t e) sound)
    | inr (why, h, p) ↦ inr (why, h, rw (e, p) refl)
  ]
]
