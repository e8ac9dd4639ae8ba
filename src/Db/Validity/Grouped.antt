-- ===== src/Db/Validity/Grouped.antt =====
-- db/memory.go: `AllGroupedBy` by an index and by a scan.
use mathlib.Core.List.{Perm}
use mathlib.Core.List.Perm
use alma_backend_task.Prelude.{
  String, ◌≡◌, refl, sym, subst, none, some, List, [], ◌∷◌, true, ok, ◌∙◌, ap, String-discrete,
  Option-cases, inl, inr,
}
use alma_backend_task.GoMap
use alma_backend_task.GoMap.Distinct.{entries}
use alma_backend_task.GoMap.Entries.{values-All}
use alma_backend_task.Value.{Value, Value-discrete, hashable}
use alma_backend_task.Db.Types.{Record, Index, Table, at}
use alma_backend_task.Db.Index.{or_empty}
use alma_backend_task.Db.Query.{Groups, group_by_index, grouped}
use alma_backend_task.Db.Validity.{IsValid}
use alma_backend_task.Db.Validity.Groups.{
  rows_with, IsKey, extended, group_by_scan-groups, group_by_index-records, index-Perm,
}

-- What every record of the table holds in the field, if anything, can be a map key.
abbrev pub HasKeys : String → Table → Type 0
HasKeys f t = (pk : String) (r : Record) → at pk t.records ≡ some r → IsKey (at f r)

-- The groups are those of the records, each with its records in some order.
abbrev pub IsGrouping : String → Table → Groups → Type 0
IsGrouping f t groups =
    (v : Value)
    → hashable v ≡ true
    → Perm (or_empty (GoMap.get Value-discrete v groups)) (rows_with f v (GoMap.values t.records))

extended-none : (rs : List Record) → or_empty (extended none rs) ≡ rs
extended-none [] = refl
extended-none (r ∷ rs) = refl

by_scan :
    (f : String) (t : Table)
    → IsValid t
    → HasKeys f t
    → at f t.indexes ≡ none
    → (g : Groups) × (grouped f t ≡ ok g) × IsGrouping f t g
unfolding grouped GoMap.get
by_scan f t valid keys n =
    let rs = GoMap.values t.records in
    let (g, e, h) = group_by_scan-groups f rs [] (
      values-All (λ p. at p.0 t.records ≡ some p.1) (λ r. IsKey (at f r)) (λ p a. keys p.0 p.1 a)
        t.records (entries String-discrete t.records valid.distinct)) in
    (
      g,
      rw (n, grouped) e,
      λ v k.
          subst (λ rows. Perm rows (rows_with f v rs))
            (sym (ap or_empty (h v) ∙ extended-none (rows_with f v rs))) (Perm.refl _),
    )

by_index :
    (f : String) (t : Table) (idx : Index)
    → IsValid t
    → at f t.indexes ≡ some idx
    → (g : Groups) × (grouped f t ≡ ok g) × IsGrouping f t g
unfolding grouped
by_index f t idx valid i = (
  group_by_index t.records idx,
  rw (i, grouped) refl,
  λ v k.
      rw (group_by_index-records t.records idx v (valid.coherent.maps f idx i))
        (index-Perm f v t idx valid i k),
)

-- On a well-formed table where the field holds map keys, the groups of `AllGroupedBy`, by the index of
-- the field or by a scan, are made without an error, and the group of each value is a permutation of
-- the records that hold the value in the field.
pub grouped-IsGrouping :
    (f : String) (t : Table)
    → IsValid t
    → HasKeys f t
    → (g : Groups) × (grouped f t ≡ ok g) × IsGrouping f t g
grouped-IsGrouping f t valid keys = elim (Option-cases (at f t.indexes)) [
  | inl n ↦ by_scan f t valid keys n
  | inr (idx, i) ↦ by_index f t idx valid i
]
