-- ===== src/Scheduler/Reclaim.antt =====
-- `release_claim`, the reclaiming methods and `cancel`, as sequences of atomic writes.
use tysel.Base.{
  ℕ, refl, List, [], ◌∷◌, Option, none, some, lookup, Bool-cases, inl, inr, Text, lift,
}
use tysel.Task.{Task, timed_out, canceled, deadline_reached, is_terminal}
use tysel.Scheduler.{TaskClaim, validate_lease_owner}
use tysel.Scheduler.Methods.{transition, is_full}
use tysel.Scheduler.Leases.{
  require_live_claim, release_claim, release_found, retry, reclaim, reclaim_found, requeue_claims,
  requeue_expired, requeue_owner_claims, cancel, cancel_found,
}
use tysel.Scheduler.Writes.{here}
use tysel.Scheduler.LeaseRuns.{
  Runs, Runs-bind, Runs-lift, Runs-transition, Runs-retry, Runs-require,
}

module _ {J : Type 0} where
  Runs-release_found : (id now_ms : ℕ) (o : Option (Task J)) → Runs (release_found id now_ms o)
  Runs-release_found id now_ms none s w = here
  Runs-release_found id now_ms (some t) s w = elim (Bool-cases (deadline_reached t now_ms)) [
    | inl late ↦ rw late (Runs-transition id timed_out refl s w)
    | inr early ↦ elim (Bool-cases (is_full s)) [
      | inl stop ↦ rw (early, stop) here
      | inr room ↦ rw (early, room) (Runs-retry id s w)
    ]
  ]

  pub Runs-release_claim : (c : TaskClaim J) (now_ms : ℕ) → Runs (release_claim c now_ms)
  unfolding release_claim
  Runs-release_claim c now_ms =
      Runs-bind (require_live_claim c now_ms) _ (Runs-require c now_ms)
        λ _ s w. Runs-release_found c.task.meta.id now_ms (lookup c.task.meta.id s.tasks) s w

  Runs-reclaim_found : (id now_ms : ℕ) (o : Option (Task J)) → Runs (reclaim_found id now_ms o)
  Runs-reclaim_found id now_ms none s w = here
  Runs-reclaim_found id now_ms (some t) s w = elim (Bool-cases (deadline_reached t now_ms)) [
    | inl late ↦ rw late (
        Runs-bind (transition id timed_out) _ (Runs-transition id timed_out refl) (λ _ _ _. here) s
          w)
    | inr early ↦ elim (Bool-cases (is_full s)) [
      | inl stop ↦ rw (early, stop) here
      | inr room ↦ rw (early, room) (Runs-bind (retry id) _ (Runs-retry id) (λ _ _ _. here) s w)
    ]
  ]

  Runs-reclaim : (now_ms id : ℕ) → Runs {J = J} (reclaim now_ms id)
  unfolding reclaim
  Runs-reclaim now_ms id s w = Runs-reclaim_found id now_ms (lookup id s.tasks) s w

  pub Runs-requeue_claims : (now_ms : ℕ) (ids : List ℕ) → Runs {J = J} (requeue_claims now_ms ids)
  unfolding requeue_claims
  Runs-requeue_claims now_ms [] s w = here
  Runs-requeue_claims now_ms (id ∷ ids) s w =
      Runs-bind (reclaim now_ms id) _ (Runs-reclaim now_ms id)
        (λ _.
          Runs-bind (requeue_claims now_ms ids) _ (Runs-requeue_claims now_ms ids) (λ _ _ _. here))
        s w

  pub Runs-requeue_expired : (now_ms limit : ℕ) → Runs {J = J} (requeue_expired now_ms limit)
  unfolding requeue_expired
  Runs-requeue_expired now_ms limit s w = Runs-requeue_claims now_ms _ s w

  pub Runs-requeue_owner_claims :
      (owner : Text) (now_ms limit : ℕ) → Runs {J = J} (requeue_owner_claims owner now_ms limit)
  unfolding requeue_owner_claims
  Runs-requeue_owner_claims owner now_ms limit =
      Runs-bind (lift (validate_lease_owner owner)) _ (Runs-lift _)
        λ _ s w. Runs-requeue_claims now_ms _ s w

  Runs-cancel_found : (id : ℕ) (o : Option (Task J)) → Runs (cancel_found id o)
  Runs-cancel_found id none s w = here
  Runs-cancel_found id (some t) s w = elim (Bool-cases (is_terminal t.state)) [
    | inl over ↦ rw over here
    | inr open_still ↦ rw open_still (Runs-transition id canceled refl s w)
  ]

  pub Runs-cancel : (id : ℕ) → Runs {J = J} (cancel id)
  unfolding cancel
  Runs-cancel id s w = Runs-cancel_found id (lookup id s.tasks) s w
