-- ===== src/Db/Validity/Replays.antt =====
-- db/memory.go: what holds of the records of a table after a batch has been joined in.
use alma_backend_task.Prelude.{
  String, ◌≡◌, Option, some, List, [], ◌∷◌, All, String-discrete, if_pos, if_neg, subst,
}
use alma_backend_task.Db.Types.{Record}
use alma_backend_task.Db.Coherence.{Lookup, updated}
use alma_backend_task.Db.Validity.Batches.{key_of, replayed}

-- A property of a key and its record.
abbrev pub Everywhere : (String → Record → Type 0) → Lookup → Type 0
Everywhere P look = (q : String) (s : Record) → look q ≡ some s → P q s

some_eq : {r s : Record} → ◌≡◌ {A = Option Record} (some r) (some s) → r ≡ s
some_eq e = cc e

updated-Everywhere :
    (P : String → Record → Type 0) (k : String) (r : Record) (look : Lookup)
    → P k r
    → Everywhere P look
    → Everywhere P (updated k (some r) look)
updated-Everywhere P k r look h hs q s e = elim (String-discrete k q) [
  | yes p ↦
      subst (λ x. P x s) p (subst (P k) (some_eq (rw (if_pos (String-discrete k q) p) at e)) h)
  | no n ↦ hs q s (rw (if_neg (String-discrete k q) n) at e)
]

module _ (field : String) (join : Option Record → Record → Record) where
  pub replayed-Everywhere :
      (P : String → Record → Type 0) (Q : Record → Type 0)
      → ((r : Record)
          → Q r
          → (o : Option Record) → ((s : Record) → o ≡ some s → P (key_of field r) s)
          → P (key_of field r) (join o r))
      → (rs : List Record) (look : Lookup) → All Q rs
      → Everywhere P look
      → Everywhere P (replayed field join rs look)
  unfolding replayed
  replayed-Everywhere P Q step [] look qs h = h
  replayed-Everywhere P Q step (r ∷ rs) look qs h = replayed-Everywhere P Q step rs _ qs.1 (
      updated-Everywhere P (key_of field r) (join (look (key_of field r)) r) look
        (step r qs.0 (look (key_of field r)) (h (key_of field r))) h)
