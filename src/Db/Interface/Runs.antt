-- ===== src/Db/Interface/Runs.antt =====
-- db/interface.go: any calls one after the other, from a database with no table.
use alma_backend_task.Prelude.{
  String, ◌≡◌, refl, sym, subst, Option, none, some, List, [], ◌∷◌, ok, inl, inr,
}
use alma_backend_task.GoMap
use alma_backend_task.Value.{Value}
use alma_backend_task.Db.Types.{Db, Error, Outcome}
use alma_backend_task.Db.Tables.{new, has_table}
use alma_backend_task.Db.Insert.{get}
use alma_backend_task.Db.Query.{all, count}
use alma_backend_task.Db.Interface.{Database, memory, Call, perform, replied, perform_all}
use alma_backend_task.Db.Interface.Contents.{
  Contents, no_contents, view, promised, promised_get, is_there, Admits,
}
use alma_backend_task.Db.Interface.Refinement.{IsSound, Agrees}
use alma_backend_task.Db.Interface.Memory.{Listed, IsFaithful, memory-IsFaithful}

-- The contents after a call: an error leaves them.
abbrev pub kept_contents : Contents → Outcome Contents → Contents
kept_contents c (ok c') = c'
kept_contents c _ = c

-- Each call is one that the contents then admit.
abbrev pub AdmitsAll : List Call → Contents → Type 0
AdmitsAll [] c = Unit
AdmitsAll (call ∷ calls) c = Admits call c × AdmitsAll calls (kept_contents c (promised call c))

module _ {S : Type 0} (d : Database S) (IsGood : S → Type 0) (seen : S → Contents)
    (faithful : IsFaithful d IsGood seen) where
  -- The state that a call leaves is good, and is seen as the contents then.
  abbrev Steps : S → Outcome S → Outcome Contents → Type 0
  Steps s out promise =
      (s' : S) × (reply : Option Error) × (replied s out ≡ ok (s', reply))
      × (replied (seen s) promise ≡ ok (seen s', reply))
      × IsGood s'
      × (kept_contents (seen s) promise ≡ seen s')

  Agrees-Steps :
      (s : S) (out : Outcome S) (promise : Outcome Contents)
      → IsGood s
      → Agrees IsGood seen out promise
      → Steps s out promise
  Agrees-Steps s out promise good (inl (s', e, p, good')) =
      (s', none, rw e refl, rw p refl, good', rw p refl)
  Agrees-Steps s out promise good (inr (why, e, p)) =
      (s, some why, rw e refl, rw p refl, good, rw p refl)

  pub faithful-run :
      (calls : List Call) (s : S)
      → IsGood s
      → AdmitsAll calls (seen s)
      → (s' : S) × (replies : List (Option Error)) × (perform_all (perform d) calls s
          ≡ ok (s', replies))
        × (perform_all promised calls (seen s) ≡ ok (seen s', replies))
        × IsGood s'
  unfolding perform_all
  faithful-run [] s good a = (s, [], refl, refl, good)
  faithful-run (call ∷ calls) s good a =
      let (s₁, reply, e₁, p₁, good₁, c₁) =
        Agrees-Steps s (perform d call s) (promised call (seen s)) good
          (faithful.writes call s good a.0) in
      let (s₂, replies, e₂, p₂, good₂) =
        faithful-run calls s₁ good₁ (subst (AdmitsAll calls) c₁ a.1) in
      (s₂, reply ∷ replies, rw (e₁, e₂) refl, rw (p₁, p₂) refl, good₂)

new-view : view new ≡ no_contents
unfolding new GoMap.get
new-view = refl

new-IsSound : IsSound new
unfolding new GoMap.get
new-IsSound = record { stored = λ name t p. cc }

-- `DB` and the contents, after the same calls.
abbrev pub Keeps : List Call → Type 0
Keeps calls =
    (db : Db) × (replies : List (Option Error)) × (perform_all (perform memory) calls new
      ≡ ok (db, replies))
    × (perform_all promised calls no_contents ≡ ok (view db, replies))
    × IsSound db
    × ((name : String) (pk : Value) → get name pk db ≡ promised_get name pk (view db))
    × ((name : String) → Listed name (view db name) (all name db) (count name db))
    × ((name : String) → has_table name db ≡ is_there (view db name))

-- Any calls of the methods that write, of which the contents admit each in its turn, from a new
-- database on: each returns the error that is promised of the contents, or none, and leaves what is
-- promised. In the end each table is well formed, `Get` and `TableExists` answer from the contents,
-- `All` gives their records, one for each key, and `Count` the number of these.
pub memory_run-Keeps : (calls : List Call) → AdmitsAll calls no_contents → Keeps calls
memory_run-Keeps calls a =
    let (db, replies, e, p, sound) =
      faithful-run memory IsSound view memory-IsFaithful calls new new-IsSound
        (subst (AdmitsAll calls) (sym new-view) a) in
    (
      db,
      replies,
      e,
      subst (λ c. perform_all promised calls c ≡ ok (view db, replies)) new-view p,
      sound,
      (λ name pk. memory-IsFaithful.gets name pk db),
      (λ name. memory-IsFaithful.lists name db sound),
      (λ name. memory-IsFaithful.exists name db),
    )
