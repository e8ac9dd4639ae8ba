-- ===== src/Db/Validity/Carries.antt =====
-- db/memory.go: what a batch does not take from a key, and what it brings to one.
use alma_backend_task.Prelude.{
  String, ◌≡◌, sym, ◌∙◌, subst, Option, none, some, List, [], ◌∷◌, All, String-discrete, if_pos,
  if_neg,
}
use alma_backend_task.GoMap
use alma_backend_task.GoMap.{Map}
use alma_backend_task.Db.Types.{Record, at}
use alma_backend_task.Db.Coherence.{Lookup, updated}
use alma_backend_task.Db.Validity.Batches.{key_of, replayed}

-- A property of what is at a key that a join neither takes away nor fails to bring.
pub record Lasts (join : Option Record → Record → Record) (P : Option Record → Type 0)
    : Type 0 where
  pub absent : ¬ P none
  pub stays : (o : Option Record) (r : Record) → P o → P (some (join o r))
  pub comes : (o : Option Record) (r : Record) → P (some r) → P (some (join o r))

module _ (field : String) (join : Option Record → Record → Record) (P : Option Record → Type 0)
    (lasts : Lasts join P) where
  updated-stays :
      (k : String) (r : Record) (look : Lookup) (q : String)
      → P (look q)
      → P (updated k (some (join (look k) r)) look q)
  updated-stays k r look q h = elim (String-discrete k q) [
    | yes e ↦
        rw (if_pos (String-discrete k q) e)
          (lasts.stays (look k) r (subst (λ x. P (look x)) (sym e) h))
    | no n ↦ rw (if_neg (String-discrete k q) n) h
  ]

  updated-comes :
      (k : String) (r : Record) (look : Lookup) (q : String)
      → k ≡ q
      → P (some r)
      → P (updated k (some (join (look k) r)) look q)
  updated-comes k r look q e h = rw (if_pos (String-discrete k q) e) (lasts.comes (look k) r h)

  -- What a key has, it has after the batch.
  pub replayed-stays :
      (rs : List Record) (look : Lookup) (q : String)
      → P (look q)
      → P (replayed field join rs look q)
  unfolding replayed
  replayed-stays [] look q h = h
  replayed-stays (r ∷ rs) look q h =
      replayed-stays rs _ q (updated-stays (key_of field r) r look q h)

  -- What a batch has at a key, each of its records under its own, the key has after it.
  pub replayed-comes :
      (m : Map String Record) (look : Lookup) (q : String)
      → All (λ e. key_of field e.1 ≡ e.0) m
      → P (at q m)
      → P (replayed field join (GoMap.values m) look q)
  unfolding replayed GoMap.get
  replayed-comes [] look q own h = absurd (lasts.absent h)
  replayed-comes ((k, s) ∷ m) look q own h = elim (String-discrete k q) [
    | yes p ↦ replayed-stays (GoMap.values m) _ q (
        updated-comes (key_of field s) s look q (own.0 ∙ p)
          (rw (if_pos (String-discrete k q) p) at h))
    | no n ↦ replayed-comes m _ q own.1 (rw (if_neg (String-discrete k q) n) at h)
  ]
