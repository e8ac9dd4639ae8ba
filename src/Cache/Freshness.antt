-- ===== src/Cache/Freshness.antt =====
-- backend/api/cache.go: the generation counter keeps stale results out of the cache.
use alma_backend_task.Prelude.{
  ℕ, ◌+◌, ◌%◌, ◌≤◌, ◌<◌, ◌≡◌, ap, Bool, true, Option, some, List, ite, ℕ_discrete, arith, subst,
  sym, ◌∙◌, if_neg,
}
use alma_backend_task.Cache.{
  generations, empty, get_catalog, set_catalog, get_connections, set_connections, invalidate,
}
use alma_backend_task.Cache.Protocol.{
  Request, idle, missed_catalog, missed_connections, fetched_catalog, fetched_connections, System,
  set_request, start, Step, miss_catalog, miss_connections, fetch_catalog, fetch_connections,
  store_catalog, store_connections, write, drop_cache, Reach, here, next,
}

module _ {Catalog Connection : Type 0} (shows : Catalog → ℕ) (shows_all : List Connection → ℕ) where
  -- What is known of a request: the generation that it read is that of its epoch, and if no
  -- invalidation came since, its result shows the writes that the last one covered.
  abbrev pub IsTracked : ℕ → ℕ → Request Catalog Connection → Type 0
  IsTracked now covered idle = Unit
  IsTracked now covered (missed_catalog gen epoch begun) =
      (gen ≡ epoch % generations) × (epoch ≤ now) × (epoch ≡ now → covered ≤ begun)
  IsTracked now covered (missed_connections gen epoch begun) =
      (gen ≡ epoch % generations) × (epoch ≤ now) × (epoch ≡ now → covered ≤ begun)
  IsTracked now covered (fetched_catalog gen epoch v) =
      (gen ≡ epoch % generations) × (epoch ≤ now) × (epoch ≡ now → covered ≤ shows v)
  IsTracked now covered (fetched_connections gen epoch v) =
      (gen ≡ epoch % generations) × (epoch ≤ now) × (epoch ≡ now → covered ≤ shows_all v)

  pub record Inv (s : System Catalog Connection) : Type 0 where
    pub generation : s.cache.generation ≡ s.epoch % generations
    pub covered : s.covered ≤ s.writes
    pub tracked : (i : ℕ) → IsTracked s.epoch s.covered (s.requests i)
    pub catalog : (v : Catalog) → s.cache.catalog ≡ some v → s.covered ≤ shows v
    pub connections : s.cache.connections_cached ≡ true → s.covered ≤ shows_all s.cache.connections

  IsTracked-set :
      (now covered i : ℕ) (r : Request Catalog Connection) (f : ℕ → Request Catalog Connection)
      → IsTracked now covered r
      → ((j : ℕ) → IsTracked now covered (f j))
      → (j : ℕ) → IsTracked now covered (set_request i r f j)
  IsTracked-set now covered i r f h k j = go (ℕ_discrete i j)
    where
      go : (d : Dec (i ≡ j)) → IsTracked now covered (ite d r (f j))
      go (yes p) = h
      go (no n) = k j

  requests-Inv :
      (s : System Catalog Connection) (f : ℕ → Request Catalog Connection)
      → Inv s
      → ((j : ℕ) → IsTracked s.epoch s.covered (f j))
      → Inv (record s { requests = f })
  requests-Inv s f v h = record {
    generation = v.generation;
    covered = v.covered;
    tracked = h;
    catalog = v.catalog;
    connections = v.connections;
  }

  -- An epoch of the same generation is the same epoch, while the counter has not come round.
  same_epoch :
      (now epoch gen : ℕ)
      → now < generations
      → epoch ≤ now
      → gen ≡ epoch % generations
      → gen ≡ now % generations
      → epoch ≡ now
  same_epoch now epoch gen small le a b = omega arith

  stored-Inv :
      (s : System Catalog Connection) (gen epoch : ℕ) (c : Catalog)
      → s.epoch < generations
      → IsTracked s.epoch s.covered (fetched_catalog gen epoch c)
      → Inv s
      → Inv (record s { cache = set_catalog gen c s.cache })
  unfolding set_catalog
  stored-Inv s gen epoch c small (g, le, fresh) v = elim (ℕ_discrete s.cache.generation gen) [
    | yes same ↦
        let shown = fresh (same_epoch s.epoch epoch gen small le g (sym same ∙ v.generation)) in
        record {
          generation = ground (arith, v.generation);
          covered = v.covered;
          tracked = v.tracked;
          catalog = λ w p. ground (arith, v.catalog w);
          connections = λ p. ground (arith, v.connections);
        }
    | no other ↦ rw (if_neg (ℕ_discrete s.cache.generation gen) other) v
  ]

  stored_connections-Inv :
      (s : System Catalog Connection) (gen epoch : ℕ) (c : List Connection)
      → s.epoch < generations
      → IsTracked s.epoch s.covered (fetched_connections gen epoch c)
      → Inv s
      → Inv (record s { cache = set_connections gen c s.cache })
  unfolding set_connections
  stored_connections-Inv s gen epoch c small (g, le, fresh) v =
      elim (ℕ_discrete s.cache.generation gen) [
        | yes same ↦
            let shown = fresh (same_epoch s.epoch epoch gen small le g (sym same ∙ v.generation)) in
            record {
              generation = ground (arith, v.generation);
              covered = v.covered;
              tracked = v.tracked;
              catalog = λ w p. ground (arith, v.catalog w);
              connections = λ p. ground (arith, v.connections);
            }
        | no other ↦ rw (if_neg (ℕ_discrete s.cache.generation gen) other) v
      ]

  invalidated-Inv :
      (s : System Catalog Connection)
      → Inv s
      → Inv (record s { cache = invalidate s.cache; epoch = s.epoch + 1; covered = s.writes })
  unfolding invalidate
  invalidated-Inv s v = record {
    generation = omega (arith, v.generation);
    covered = omega arith;
    tracked = λ i. later (s.requests i) (v.tracked i);
    catalog = λ w p. cc;
    connections = λ p. cc;
  }
    where
      later :
          (r : Request Catalog Connection)
          → IsTracked s.epoch s.covered r
          → IsTracked (s.epoch + 1) s.writes r
      later idle h = tt
      later (missed_catalog gen epoch begun) h = (h.0, omega arith, λ e. absurd (omega arith))
      later (missed_connections gen epoch begun) h = (h.0, omega arith, λ e. absurd (omega arith))
      later (fetched_catalog gen epoch c) h = (h.0, omega arith, λ e. absurd (omega arith))
      later (fetched_connections gen epoch c) h = (h.0, omega arith, λ e. absurd (omega arith))

  -- Every step keeps the invariant, while the counter has not come round.
  Step-Inv :
      {s t : System Catalog Connection}
      → Step shows shows_all s t
      → t.epoch < generations
      → Inv s
      → Inv t
  unfolding get_catalog get_connections
  Step-Inv {s} (miss_catalog i gen h e) small v = rw e (
      requests-Inv s _ v (
        IsTracked-set s.epoch s.covered i _ s.requests
          (sym (ap (λ (p : Option Catalog × ℕ). p.1) h) ∙ v.generation, omega arith, λ _. v.covered)
          v.tracked))
  Step-Inv {s} (miss_connections i gen stale h e) small v = rw e (
      requests-Inv s _ v (
        IsTracked-set s.epoch s.covered i _ s.requests
          (
            sym (ap (λ (p : List Connection × ℕ × Bool). p.1) h) ∙ v.generation,
            omega arith,
            λ _. v.covered,
          )
          v.tracked))
  Step-Inv {s} (fetch_catalog i gen epoch begun c at le e) small v =
      let (g, old, fresh) = subst (IsTracked s.epoch s.covered) at (v.tracked i) in
      rw e (
        requests-Inv s _ v (
          IsTracked-set s.epoch s.covered i _ s.requests (g, old, λ p. omega (arith, fresh p))
            v.tracked))
  Step-Inv {s} (fetch_connections i gen epoch begun c at le e) small v =
      let (g, old, fresh) = subst (IsTracked s.epoch s.covered) at (v.tracked i) in
      rw e (
        requests-Inv s _ v (
          IsTracked-set s.epoch s.covered i _ s.requests (g, old, λ p. omega (arith, fresh p))
            v.tracked))
  Step-Inv {s} (store_catalog i gen epoch c at e) small v =
      let kept =
        stored-Inv s gen epoch c (rw e at small)
          (subst (IsTracked s.epoch s.covered) at (v.tracked i)) v in
      rw e (
        requests-Inv (record s { cache = set_catalog gen c s.cache }) _ kept
          (IsTracked-set s.epoch s.covered i idle s.requests tt v.tracked))
  Step-Inv {s} (store_connections i gen epoch c at e) small v =
      let kept =
        stored_connections-Inv s gen epoch c (rw e at small)
          (subst (IsTracked s.epoch s.covered) at (v.tracked i)) v in
      rw e (
        requests-Inv (record s { cache = set_connections gen c s.cache }) _ kept
          (IsTracked-set s.epoch s.covered i idle s.requests tt v.tracked))
  Step-Inv {s} (write e) small v = rw e (record {
    generation = v.generation;
    covered = omega (arith, v.covered);
    tracked = v.tracked;
    catalog = v.catalog;
    connections = v.connections;
  })
  Step-Inv {s} (drop_cache e) small v = rw e (invalidated-Inv s v)

  epoch_grows : {s t : System Catalog Connection} → Step shows shows_all s t → s.epoch ≤ t.epoch
  epoch_grows (miss_catalog i gen h e) = ground (arith, e)
  epoch_grows (miss_connections i gen stale h e) = ground (arith, e)
  epoch_grows (fetch_catalog i gen epoch begun c at le e) = ground (arith, e)
  epoch_grows (fetch_connections i gen epoch begun c at le e) = ground (arith, e)
  epoch_grows (store_catalog i gen epoch c at e) = ground (arith, e)
  epoch_grows (store_connections i gen epoch c at e) = ground (arith, e)
  epoch_grows (write e) = ground (arith, e)
  epoch_grows (drop_cache e) = ground (arith, e)

  start-Inv : Inv start
  unfolding empty
  start-Inv = record {
    generation = omega arith;
    covered = omega arith;
    tracked = λ i. tt;
    catalog = λ v p. cc;
    connections = λ p. cc;
  }

  Reach-Inv :
      {s : System Catalog Connection} → Reach shows shows_all s → s.epoch < generations → Inv s
  Reach-Inv here small = start-Inv
  Reach-Inv (next r st) small = Step-Inv st small (Reach-Inv r (omega (arith, epoch_grows st)))

  -- In any interleaving of requests, writes and invalidations, fewer than 2^64 of the last, what a
  -- request is served from the cache shows every write that the last invalidation covered.
  pub hit_is_fresh :
      {s : System Catalog Connection}
      → Reach shows shows_all s
      → s.epoch < generations
      → ((v : Catalog) (gen : ℕ) → get_catalog s.cache ≡ (some v, gen) → s.covered ≤ shows v)
        × ((cs : List Connection) (gen : ℕ)
            → get_connections s.cache ≡ (cs, gen, true)
            → s.covered ≤ shows_all cs)
  unfolding get_catalog get_connections
  hit_is_fresh {s} r small =
      let v = Reach-Inv r small in
      (
        λ w gen h. v.catalog w (ap (λ (p : Option Catalog × ℕ). p.0) h),
        λ cs gen h.
            rw (← ap (λ (p : List Connection × ℕ × Bool). p.0) h)
              (v.connections (ap (λ (p : List Connection × ℕ × Bool). p.2) h)),
      )
