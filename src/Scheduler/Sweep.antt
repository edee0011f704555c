-- ===== src/Scheduler/Sweep.antt =====
-- Which leases the reclaiming calls sweep up: the ones that pass their test, and no others.
use tysel.Base.{
  ℕ, zero, suc, ◌≤◌, ◌<◌, ◌≡◌, refl, List, [], ◌∷◌, Bool, true, false, Option, none, some, ok,
  lookup, keys, count, take, arith, Result, length, if◌then◌else◌, length-take-le, leb, Text,
}
use tysel.Task.{Task}
use tysel.Scheduler.{Scheduler, SchedulerError, ActiveClaim}
use tysel.Scheduler.Leases.{
  requeue_claims, requeue_expired, requeue_owner_claims, claimed_ids, sort_unstable, insert_sorted,
}
use tysel.Scheduler.Invariant.{claim_fits, IsWf, held}
use tysel.Scheduler.Requeue.{SameAt, Requeued, requeue_claims-Requeued}
use tysel.Scheduler.{validate_lease_owner}
use tysel.Base.{text_eq}

count-insert_sorted : (j x : ℕ) (ys : List ℕ) → count j (insert_sorted x ys) ≡ count j (x ∷ ys)
unfolding insert_sorted
count-insert_sorted j x [] = refl
count-insert_sorted j x (y ∷ ys) = ground (arith, count-insert_sorted j x ys)

count-sort_unstable : (j : ℕ) (xs : List ℕ) → count j (sort_unstable xs) ≡ count j xs
unfolding sort_unstable
count-sort_unstable j [] = refl
count-sort_unstable j (x ∷ xs) =
    ground (arith, count-insert_sorted j x (sort_unstable xs), count-sort_unstable j xs)

count-take-le : (j n : ℕ) (xs : List ℕ) → count j (take n xs) ≤ count j xs
count-take-le j zero xs = omega arith
count-take-le j (suc n) [] = omega arith
count-take-le j (suc n) (x ∷ xs) = ground (arith, count-take-le j n xs)

claimed_absent :
    (test : ActiveClaim → Bool) (j : ℕ) (m : List (ℕ × ActiveClaim))
    → count j (keys m) ≡ 0
    → count j (claimed_ids test m) ≡ 0
unfolding claimed_ids
claimed_absent test j [] h = refl
claimed_absent test j ((i, c) ∷ m) h = ground (arith, claimed_absent test j m)

abbrev passes : (ActiveClaim → Bool) → Option ActiveClaim → ℕ
passes test none = 0
passes test (some a) = if test a then 1 else 0

count-claimed_ids :
    (test : ActiveClaim → Bool) (j : ℕ) (m : List (ℕ × ActiveClaim))
    → count j (keys m) ≤ 1
    → count j (claimed_ids test m) ≡ passes test (lookup j m)
unfolding claimed_ids lookup
count-claimed_ids test j [] h = refl
count-claimed_ids test j ((i, c) ∷ m) h =
    ground (arith, count-claimed_ids test j m, claimed_absent test j m)

passes-found :
    (test : ActiveClaim → Bool) (o : Option ActiveClaim)
    → 0 < passes test o
    → (a : ActiveClaim) × (o ≡ some a) × (test a ≡ true)
passes-found test none h = absurd (omega arith)
passes-found test (some a) h = (a, refl, ground (arith, h))

passes-le : (test : ActiveClaim → Bool) (o : Option ActiveClaim) → passes test o ≤ 1
passes-le test none = omega arith
passes-le test (some a) = ground arith

module _ {J : Type 0} where
  passes-held :
      (test : ActiveClaim → Bool) (o : Option ActiveClaim) (t : Option (Task J)) (g : ℕ)
      → 0 < passes test o
      → claim_fits o t g ≡ true
      → held t ≡ true
  passes-held test none t g h f = absurd (omega arith)
  passes-held test (some a) t g h f = ground arith

  -- What a reclaiming call does to the leases that pass its test and to those that do not.
  pub record Swept (s : Scheduler J) (limit : ℕ) (test : ActiveClaim → Bool)
      (r : Scheduler J × Result SchedulerError (List ℕ)) : Type 0 where
    pub u : Scheduler J
    pub done : List ℕ
    pub returns : r ≡ (u, ok done)
    pub bounded : length done ≤ limit
    pub unleased : (j : ℕ) → 0 < count j done → lookup j u.claims ≡ none
    pub chosen :
        (j : ℕ)
        → 0 < count j done
        → (a : ActiveClaim) × (lookup j s.claims ≡ some a) × (test a ≡ true)
    pub spared :
        (j : ℕ) (a : ActiveClaim) → lookup j s.claims ≡ some a → test a ≡ false → SameAt j s u

  requeue_claims-Swept :
      (now_ms limit : ℕ) (test : ActiveClaim → Bool) (s : Scheduler J)
      → IsWf s
      → Swept s limit test
          (requeue_claims now_ms (take limit (sort_unstable (claimed_ids test s.claims))) s)
  requeue_claims-Swept now_ms limit test s w = record {
    u = x.u;
    done = x.done;
    returns = x.returns;
    bounded =
        omega (arith, x.bounded, length-take-le limit (sort_unstable (claimed_ids test s.claims)));
    unleased = x.unleased;
    chosen = λ j h. passes-found test (lookup j s.claims) (omega (arith, h, x.chosen j, picked j));
    spared = λ j a found fails. x.confined j (ground (arith, picked j, found, fails));
  }
    where
      ids : List ℕ
      ids = take limit (sort_unstable (claimed_ids test s.claims))

      picked : (j : ℕ) → count j ids ≤ passes test (lookup j s.claims)
      picked j = omega (
        arith,
        count-take-le j limit (sort_unstable (claimed_ids test s.claims)),
        count-sort_unstable j (claimed_ids test s.claims),
        count-claimed_ids test j s.claims (w.at j).one_claim,
      )

      x : Requeued s ids (requeue_claims now_ms ids s)
      x =
          requeue_claims-Requeued now_ms ids s
            (λ j h.
              passes-held test (lookup j s.claims) (lookup j s.tasks) _ (omega (arith, h, picked j))
                (w.at j).claim_held)
            (λ j. omega (arith, picked j, passes-le test (lookup j s.claims)))

  -- On a well-formed scheduler `requeue_expired` never fails. It processes at most `limit` tasks.
  -- Each of these had a lease that has run out, and has none afterwards. A lease that still runs is
  -- spared: neither it nor its task changes.
  pub requeue_expired-Swept :
      (now_ms limit : ℕ) (s : Scheduler J)
      → IsWf s
      → Swept s limit (λ a. leb a.lease_until_ms now_ms) (requeue_expired now_ms limit s)
  unfolding requeue_expired
  requeue_expired-Swept now_ms limit s w =
      requeue_claims-Swept now_ms limit (λ a. leb a.lease_until_ms now_ms) s w

  -- On a well-formed scheduler `requeue_owner_claims` fails only for an invalid owner. It processes
  -- at most `limit` tasks, each of which was leased to that owner and is leased to nobody
  -- afterwards; the leases of other owners and their tasks do not change.
  pub requeue_owner_claims-Swept :
      (owner : Text) (now_ms limit : ℕ) (s : Scheduler J)
      → IsWf s
      → validate_lease_owner owner ≡ ok tt
      → Swept s limit (λ a. text_eq a.lease_owner owner) (requeue_owner_claims owner now_ms limit s)
  unfolding requeue_owner_claims
  requeue_owner_claims-Swept owner now_ms limit s w valid =
      rw valid (requeue_claims-Swept now_ms limit (λ a. text_eq a.lease_owner owner) s w)
