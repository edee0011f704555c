-- ===== src/Durable/Granting.antt =====
-- What a claim of one wakeup does.
use tysel.Base.{
  ℕ, ◌+◌, ◌≤◌, ◌<◌, leb, ◌≡◌, refl, Text, Option, none, some, true, false, ◌==◌, if◌then◌else◌,
  lookup, lookup-insert, ok, text_eq_iff, arith, ◌⊎◌, inl, inr, Bool-cases, Option-cases, ==_iff,
}
use tysel.Durable.{WakeupClaim, WakeupRow, Tables}
use tysel.Durable.Tx.{to_sql_integer}
use tysel.Durable.Wakeups.{
  validate_lease_owner, lease_until, is_claimable, leased_to, set_row, claim_wakeup,
}
use tysel.Durable.Leasing.{carried}

-- The wakeup is due and no lease on it runs.
pub record IsDue (now_ms : ℕ) (r : WakeupRow) : Type 0 where
  pub due : r.wake_at_ms ≤ now_ms
  pub free :
      (r.lease_until_ms ≡ none) ⊎ ((until : ℕ) × (r.lease_until_ms ≡ some until) × (until ≤ now_ms))

-- The wakeup lies in the future, or a lease on it runs.
abbrev pub IsNotDue : ℕ → WakeupRow → Type 0
IsNotDue now_ms r =
    (now_ms < r.wake_at_ms) ⊎ ((until : ℕ) × (r.lease_until_ms ≡ some until) × (now_ms < until))

claimable-IsDue : (now_ms : ℕ) (r : WakeupRow) → is_claimable now_ms r ≡ true → IsDue now_ms r
claimable-IsDue now_ms r h = record {
  due = ground arith;
  free = elim (Option-cases r.lease_until_ms) [
    | inl absent ↦ inl absent
    | inr (until, e) ↦ inr (until, e, ground arith)
  ];
}

claimable-IsNotDue :
    (now_ms : ℕ) (r : WakeupRow) → is_claimable now_ms r ≡ false → IsNotDue now_ms r
claimable-IsNotDue now_ms r h = elim (Option-cases r.lease_until_ms) [
  | inl absent ↦ inl (ground arith)
  | inr (until, e) ↦ elim (Bool-cases (leb r.wake_at_ms now_ms)) [
    | inr early ↦ inl (ground arith)
    | inl due ↦ inr (until, e, ground arith)
  ]
]

-- A claim was granted: the wakeup was due and free, the claim is that of the worker for this wakeup
-- and runs for the time asked for, or one millisecond if that is zero, and the table carries it.
pub record IsGranted (task now_ms : ℕ) (owner : Text) (duration : ℕ) (t : Tables) (c : WakeupClaim)
    (u : Tables) : Type 0 where
  pub row : WakeupRow
  pub found : lookup task t.wakeups ≡ some row
  pub due : IsDue now_ms row
  pub of_task : c.task_id ≡ task
  pub of_owner : c.lease_owner ≡ owner
  pub of_row : (c.sequence ≡ row.sequence) × (c.wake_at_ms ≡ row.wake_at_ms)
  pub until : c.lease_until_ms ≡ now_ms + (if duration == 0 then 1 else duration)
  pub in_table : carried c u ≡ true
  pub others : (k : ℕ) → (task == k) ≡ false → lookup k u.wakeups ≡ lookup k t.wakeups

-- A call of `claim_wakeup` that does not fail either grants nothing and changes nothing, and then
-- the task has no wakeup, or its wakeup lies in the future, or a lease on it ends later than now; or
-- it grants the claim, and then the wakeup is not in the future and has no lease or one that has
-- ended, the returned claim is the caller's for this wakeup and ends after the time asked for, or
-- one millisecond if that is zero, the table carries exactly this claim, and the wakeups of the
-- other tasks are as they were.
pub claim_wakeup_outcomes :
    (task now_ms : ℕ) (owner : Text) (duration : ℕ) (t u : Tables) (found : Option WakeupClaim)
    → claim_wakeup task now_ms owner duration t ≡ ok (found, u)
    → ((found ≡ none)
        × (u ≡ t)
        × ((lookup task t.wakeups ≡ none)
            ⊎ ((r : WakeupRow) × (lookup task t.wakeups ≡ some r) × IsNotDue now_ms r)))
      ⊎ ((c : WakeupClaim) × (found ≡ some c) × IsGranted task now_ms owner duration t c u)
unfolding claim_wakeup validate_lease_owner to_sql_integer lease_until
claim_wakeup_outcomes task now_ms owner duration t u found h =
    elim (Option-cases (lookup task t.wakeups)) [
      | inl absent ↦ inl (ground arith, ground arith, inl absent)
      | inr (r, here) ↦ elim (Bool-cases (is_claimable now_ms r)) [
        | inr taken ↦
            inl (ground arith, ground arith, inr (r, here, claimable-IsNotDue now_ms r taken))
        | inl free ↦
            let end = now_ms + (if duration == 0 then 1 else duration) in
            let c : WakeupClaim = record {
              task_id = task;
              sequence = r.sequence;
              wake_at_ms = r.wake_at_ms;
              lease_owner = owner;
              lease_until_ms = end;
            } in
            let after : u ≡ set_row task (leased_to owner end r) t = ground arith in
            inr (
              c,
              ground arith,
              record {
                row = r;
                found = here;
                due = claimable-IsDue now_ms r free;
                of_task = refl;
                of_owner = refl;
                of_row = (refl, refl);
                until = refl;
                in_table = ground (
                  arith,
                  after,
                  lookup-insert task task (leased_to owner end r) t.wakeups,
                  (==_iff task task).1 refl,
                  (==_iff r.sequence r.sequence).1 refl,
                  (==_iff r.wake_at_ms r.wake_at_ms).1 refl,
                  (==_iff end end).1 refl,
                  (text_eq_iff owner owner).1 refl,
                );
                others = λ k other.
                    ground (arith, after, lookup-insert k task (leased_to owner end r) t.wakeups);
              },
            )
      ]
    ]
