-- ===== src/Processor/Options.antt =====
-- backend/processor/processor.go: the conflict options of `flush` on tables that index nothing they merge.
use alma_backend_task.Prelude.{String, ◌≡◌, ◌≢◌, subst, none, some, String-discrete, if_neg}
use alma_backend_task.GoMap
use alma_backend_task.Db.Types.{Indexes, MergeFunc, at}
use alma_backend_task.Processor.Flush.{do_nothing, merge_ids}
use alma_backend_task.Db.Validity.Conflicts.{Resolves}

pub do_nothing-Resolves : (idxs : Indexes) → Resolves do_nothing idxs
unfolding do_nothing GoMap.get
do_nothing-Resolves idxs = record { acts = λ h. cc; keeps = λ f m p q. cc }

other_field :
    (f : String) (m : MergeFunc) → "component_ids" ≢ f → at f merge_ids.merge_funcs ≢ some m
unfolding merge_ids GoMap.get
other_field f m n h = cc (rw (if_neg (String-discrete "component_ids" f) n) at h)

pub merge_ids-Resolves : (idxs : Indexes) → at "component_ids" idxs ≡ none → Resolves merge_ids idxs
unfolding merge_ids
merge_ids-Resolves idxs free = record {
  acts = λ h. cc;
  keeps = λ f m p q. elim (String-discrete "component_ids" f) [
    | yes e ↦ absurd (p (subst (λ g. at g idxs ≡ none) e free))
    | no n ↦ absurd (other_field f m n q)
  ];
}
