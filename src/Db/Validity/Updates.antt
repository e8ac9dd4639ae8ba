-- ===== src/Db/Validity/Updates.antt =====
-- db/memory.go: what the update of an existing record makes of it, field by field.
use alma_backend_task.Prelude.{
  String, ◌≡◌, refl, true, Option, none, some, List, [], ◌∷◌, ok, arith, String-discrete,
  Option-cases, inl, inr, if_pos, if_neg, subst, sym, map,
}
use alma_backend_task.GoMap.{get-put}
use alma_backend_task.Value.{Value, hashable}
use alma_backend_task.Db.Types.{Record, Indexes, Table, ConflictOptions, MergeFunc, at, set_at}
use alma_backend_task.Db.Index.Returns.{HasKey}
use alma_backend_task.Db.Batch.{or_nil}
use alma_backend_task.Db.Conflict.{
  Update, move_in, merge_field, replace_field, write_field, update_field, update_fields,
  fields_to_update, do_update,
}
use alma_backend_task.Db.Coherence.{Lookup, IsCoherent, updated, IsCoherent-ext}
use alma_backend_task.Db.Validity.{Indexed, Fits, look_of, IsValid, Becomes, Makes}
use alma_backend_task.Db.Validity.Rows.{Fits-fewer, written}
use alma_backend_task.Db.Validity.Fields.{unindexed-IsCoherent, move_in-IsCoherent}

-- The record after one field: untouched if the new record lacks the field, merged if the field has
-- a merge function, and replaced otherwise.
abbrev pub field_result : Option Value → Option MergeFunc → String → Record → Record
field_result none merge f e = e
field_result (some new) (some merge) f e = set_at f (merge (or_nil (at f e)) new) e
field_result (some new) none f e = set_at f new e

-- The record after all the fields, in order.
unfoldable pub fields_result : ConflictOptions → Record → List String → Record → Record
fields_result opts r [] e = e
fields_result opts r (f ∷ fs) e =
    fields_result opts r fs (field_result (at f r) (at f opts.merge_funcs) f e)

-- The fields that an update goes through: those that the options name, and if they name none, every
-- field of the new record.
abbrev pub chosen : List String → Record → List String
chosen [] r = map (λ e. e.0) r
chosen (f ∷ fs) r = f ∷ fs

chosen_lem : (fs : List String) (r : Record) → fields_to_update fs r ≡ chosen fs r
unfolding fields_to_update
chosen_lem [] r = refl
chosen_lem (f ∷ fs) r = refl

-- A merge function of an indexed field makes map keys of map keys.
abbrev pub KeepsKeys : Indexes → ConflictOptions → Type 0
KeepsKeys idxs opts =
    (f : String) (merge : MergeFunc)
    → Indexed idxs f
    → at f opts.merge_funcs ≡ some merge
    → (old new : Value) → hashable old ≡ true
    → hashable new ≡ true
    → hashable (merge old new) ≡ true

move_in-none :
    (f : String) (old new : Value) (pk : String) (idxs : Indexes)
    → at f idxs ≡ none
    → move_in f old new pk idxs ≡ ok idxs
unfolding move_in
move_in-none f old new pk idxs a = ground (arith, a)

module _ (look : Lookup) (idxs : Indexes) (pk : String) where
  -- What holds of the record and of the indexes after each field.
  record IsLoop (u : Update) : Type 0 where
    coherent : IsCoherent (updated pk (some u.existing) look) u.indexes
    fits : Fits u.indexes u.existing
    fewer : (f : String) → Indexed u.indexes f → Indexed idxs f

  held : (e : Record) → updated pk (some e) look pk ≡ some e
  held e = rw (if_pos (String-discrete pk pk) refl) refl

  again :
      (e e' : Record) (out : Indexes)
      → IsCoherent (updated pk (some e') (updated pk (some e) look)) out
      → IsCoherent (updated pk (some e') look) out
  again e e' out c = IsCoherent-ext (λ q. ground arith) c

  set-Fits :
      (out : Indexes) (f : String) (v : Value) (e : Record)
      → Fits out e
      → (Indexed out f → hashable v ≡ true)
      → Fits out (set_at f v e)
  set-Fits out f v e fit k = record {
    has = λ g p. elim (String-discrete f g) [
      | yes s ↦
          rw (get-put, if_pos (String-discrete f g) s) (v, refl, k (subst (Indexed out) (sym s) p))
      | no n ↦ rw (get-put, if_neg (String-discrete f g) n) (fit.has g p)
    ];
  }

  -- A field with no index.
  plain :
      (u : Update) (f : String) (v : Value)
      → at f u.indexes ≡ none
      → IsLoop u
      → IsLoop (record u { existing = set_at f v u.existing })
  plain u f v a l = record {
    coherent = again u.existing (set_at f v u.existing) u.indexes (
        unindexed-IsCoherent (updated pk (some u.existing) look) pk f u.existing v (held u.existing)
          u.indexes l.coherent a);
    fits = set-Fits u.indexes f v u.existing l.fits (λ p. absurd (p a));
    fewer = l.fewer;
  }

  -- A field whose old value, if the field is indexed, is the one given.
  moved :
      (u : Update) (f : String) (old v : Value)
      → IsLoop u
      → (Indexed u.indexes f
          → (at f u.existing ≡ some old) × (hashable old ≡ true) × (hashable v ≡ true))
      → (out : Indexes) × (move_in f old v pk u.indexes ≡ ok out)
        × IsLoop (record { existing = set_at f v u.existing; indexes = out })
  moved u f old v l k = elim (Option-cases (at f u.indexes)) [
    | inl a ↦ (u.indexes, move_in-none f old v pk u.indexes a, plain u f v a l)
    | inr (idx, a) ↦
        let p : Indexed u.indexes f = λ n. ground (arith, a, n) in
        let (was, h, h') = k p in
        let (out, e, c, fewer) =
          move_in-IsCoherent (updated pk (some u.existing) look) pk f u.existing v (held u.existing)
            u.indexes l.coherent old was h h' in
        (
          out,
          e,
          record {
            coherent = again u.existing (set_at f v u.existing) out c;
            fits = set-Fits out f v u.existing (Fits-fewer fewer l.fits) (λ _. h');
            fewer = λ g q. l.fewer g (fewer g q);
          },
        )
  ]

  -- One field returns, and keeps what holds.
  abbrev Steps : Option Value → Option MergeFunc → String → Update → Type 0
  Steps new merge f u =
      (u' : Update) × (write_field new merge pk f u ≡ ok u')
      × IsLoop u'
      × (u'.existing ≡ field_result new merge f u.existing)

  -- The record lacks the field, so that the field has no index.
  fresh-Steps :
      (v : Value) (f : String) (u : Update)
      → IsLoop u
      → at f u.existing ≡ none
      → Steps (some v) none f u
  unfolding write_field replace_field
  fresh-Steps v f u l o = elim (Option-cases (at f u.indexes)) [
    | inl a ↦ (record u { existing = set_at f v u.existing }, rw o refl, plain u f v a l, refl)
    | inr (idx, a) ↦
        let (w, e, h) = l.fits.has f (λ n. ground (arith, a, n)) in absurd (ground (arith, o, e))
  ]

  replaced-Steps :
      (v old : Value) (f : String) (u : Update)
      → IsLoop u
      → at f u.existing ≡ some old
      → (Indexed u.indexes f → HasKey (some v))
      → Steps (some v) none f u
  unfolding write_field replace_field
  replaced-Steps v old f u l o hn =
      let (out, e, l') = moved u f old v l (λ p.
        let (w, e, h) = l.fits.has f p in
        let (w', e', h') = hn p in (o, ground (arith, o, e, h), ground (arith, e', h'))) in
      (record { existing = set_at f v u.existing; indexes = out }, rw (o, e) refl, l', refl)

  write_field-Steps :
      (new : Option Value) (merge : Option MergeFunc) (f : String) (u : Update)
      → IsLoop u
      → (Indexed u.indexes f → HasKey new)
      → ((m : MergeFunc)
          → merge ≡ some m
          → Indexed u.indexes f
          → (a b : Value) → hashable a ≡ true
          → hashable b ≡ true
          → hashable (m a b) ≡ true)
      → Steps new merge f u
  unfolding write_field merge_field
  write_field-Steps none merge f u l hn hm = (u, refl, l, refl)
  write_field-Steps (some v) none f u l hn hm = elim (Option-cases (at f u.existing)) [
    | inl o ↦ fresh-Steps v f u l o
    | inr (old, o) ↦ replaced-Steps v old f u l o hn
  ]
  write_field-Steps (some v) (some m) f u l hn hm =
      let old = or_nil (at f u.existing) in
      let (out, e, l') = moved u f old (m old v) l (λ p.
        let (w, e, h) = l.fits.has f p in
        let (w', e', h') = hn p in
        let hashes : hashable old ≡ true = rw e h in
        (rw e refl, hashes, hm m refl p old v hashes (ground (arith, e', h')))) in
      (record { existing = set_at f (m old v) u.existing; indexes = out }, rw e refl, l', refl)

  update_fields-lem :
      (opts : ConflictOptions) (r : Record)
      → Fits idxs r
      → KeepsKeys idxs opts
      → (fs : List String) (u : Update) → IsLoop u
      → (u' : Update) × (update_fields opts pk r fs u ≡ ok u')
        × IsLoop u'
        × (u'.existing ≡ fields_result opts r fs u.existing)
  unfolding update_fields update_field fields_result
  update_fields-lem opts r fit keeps [] u l = (u, refl, l, refl)
  update_fields-lem opts r fit keeps (f ∷ fs) u l =
      let (u₁, e, l₁, x) =
        write_field-Steps (at f r) (at f opts.merge_funcs) f u l (λ p. fit.has f (l.fewer f p))
          (λ m q p. keeps f m (l.fewer f p) q) in
      let (u₂, e', l₂, x') = update_fields-lem opts r fit keeps fs u₁ l₁ in
      (u₂, rw (e, e') refl, l₂, rw (x', x) refl)

-- An update of an existing record returns, and makes of it what its fields make.
pub do_update-Makes :
    (opts : ConflictOptions) (pk : String) (existing r : Record) (t : Table)
    → IsValid t
    → Fits t.indexes r
    → KeepsKeys t.indexes opts
    → at pk t.records ≡ some existing
    → Makes t
        (updated pk
          (some (fields_result opts r (chosen opts.update_fields r) existing))
          (look_of t))
        (do_update opts pk existing r t)
unfolding do_update
do_update-Makes opts pk existing r t v fit keeps old =
    let fs = chosen opts.update_fields r in
    let (u, e, l, x) =
      update_fields-lem (look_of t) t.indexes pk opts r fit keeps fs
        (record { existing = existing; indexes = t.indexes })
        (record {
          coherent = IsCoherent-ext (λ q. ground (arith, old)) v.coherent;
          fits = v.complete pk existing old;
          fewer = λ f p. p;
        }) in
    (
      record t { records = set_at pk u.existing t.records; indexes = u.indexes },
      rw (chosen_lem opts.update_fields r, e) refl,
      subst
          (λ (m : Record).
            Becomes t (updated pk (some m) (look_of t))
              (record t { records = set_at pk u.existing t.records; indexes = u.indexes }))
          x (written t pk u.existing u.indexes v l.fits l.fewer l.coherent),
    )
