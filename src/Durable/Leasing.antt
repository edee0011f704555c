-- ===== src/Durable/Leasing.antt =====
-- Calls on wakeups, and what the claims of other workers leave of a lease that has not run out.
use tysel.Base.{
  ℕ, ◌+◌, ◌<◌, ◌≡◌, Text, Option, none, some, List, [], ◌∷◌, Bool, true, false, not, ltb, ◌==◌,
  if◌then◌else◌, take, min, lookup, lookup-insert, lookup-remove, Result, ok, err, text_eq, arith,
  inl, inr, Bool-cases, Option-cases, ==_iff, ap,
}
use tysel.Durable.{Wakeup, WakeupClaim, ExecutionClaim, DurableError, WakeupRow, Tables}
use tysel.Durable.Tx.{to_sql_integer}
use tysel.Durable.History.{Clock, owned_by}
use tysel.Durable.Wakeups.{
  validate_lease_owner, lease_until, is_claimable, leased_to, set_row, drop_row, claim_wakeup,
  claim_candidate, claim_candidates, claim_due_wakeups, complete_wakeup, renew_wakeup_claim,
  release_wakeup_claim, schedule_wakeup, carries, claimable_by_time, max_wakeup_batch,
}
use tysel.Durable.Executions.{claim_run, release_run}

pub data WakeupCall : Type 0 where
  claims : (task now_ms : ℕ) → (owner : Text) → (duration : ℕ) → WakeupCall
  claims_due : (now_ms limit : ℕ) → (owner : Text) → (duration : ℕ) → WakeupCall
  completes :
      Option ExecutionClaim → Clock → (task sequence : ℕ) → Option Text → (now_ms : ℕ) → WakeupCall
  renews : WakeupClaim → (now_ms duration : ℕ) → WakeupCall
  releases : WakeupClaim → WakeupCall
  schedules : Wakeup → WakeupCall
  starts_run :
      (token : Text → Text) → Clock → (task : ℕ) → (owner : Text) → (duration : ℕ) → WakeupCall
  ends_run : Clock → ExecutionClaim → (is_failure : Bool) → WakeupCall

-- A failing call is rolled back.
abbrev pub tables_after : {A : Type 0} → Result DurableError (A × Tables) → Tables → Tables
tables_after (ok (_, u)) t = u
tables_after (err _) t = t

unfoldable pub after : WakeupCall → Tables → Tables
after (claims task now_ms owner duration) t =
    tables_after (claim_wakeup task now_ms owner duration t) t
after (claims_due now_ms limit owner duration) t =
    tables_after (claim_due_wakeups now_ms limit owner duration t) t
after (completes x clock task sequence owner now_ms) t =
    tables_after (complete_wakeup x clock task sequence owner now_ms t) t
after (renews d now_ms duration) t = tables_after (renew_wakeup_claim d now_ms duration t) t
after (releases d) t = tables_after (release_wakeup_claim d t) t
after (schedules w) t = tables_after (schedule_wakeup w t) t
after (starts_run token clock task owner duration) t =
    tables_after (claim_run token clock task owner duration t) t
after (ends_run clock d is_failure) t = tables_after (release_run clock d is_failure t) t

abbrev pub run : Tables → List WakeupCall → Tables
run t [] = t
run t (x ∷ xs) = run (after x t) xs

abbrev pub is_carried : WakeupClaim → Option WakeupRow → Bool
is_carried c none = false
is_carried c (some r) = carries c r

abbrev pub carried : WakeupClaim → Tables → Bool
carried c t = is_carried c (lookup c.task_id t.wakeups)

-- A call of another worker while the lease of the claim runs. Scheduling a wakeup and giving up an
-- execution overwrite the lease of their own task, whoever holds it, so they are calls on other tasks.
abbrev pub is_foreign : WakeupClaim → WakeupCall → Bool
is_foreign c (claims task now_ms owner duration) = ltb now_ms c.lease_until_ms
is_foreign c (claims_due now_ms limit owner duration) = ltb now_ms c.lease_until_ms
is_foreign c (completes x clock task sequence owner now_ms) = not (owned_by c.lease_owner owner)
is_foreign c (renews d now_ms duration) = not (text_eq d.lease_owner c.lease_owner)
is_foreign c (releases d) = not (text_eq d.lease_owner c.lease_owner)
is_foreign c (schedules w) = not (w.task_id == c.task_id)
is_foreign c (starts_run token clock task owner duration) = ltb clock.before c.lease_until_ms
is_foreign c (ends_run clock d is_failure) = not (d.task_id == c.task_id)

pub set_row-carried :
    (c : WakeupClaim) (task : ℕ) (r : WakeupRow) (t : Tables)
    → (task == c.task_id) ≡ false
    → carried c t ≡ true
    → carried c (set_row task r t) ≡ true
set_row-carried c task r t other h = ground (arith, lookup-insert c.task_id task r t.wakeups)

pub drop_row-carried :
    (c : WakeupClaim) (task : ℕ) (t : Tables)
    → (task == c.task_id) ≡ false
    → carried c t ≡ true
    → carried c (drop_row task t) ≡ true
drop_row-carried c task t other h = ground (arith, lookup-remove c.task_id task t.wakeups)

-- The row that carries a running claim is not claimable.
claimable-other :
    (c : WakeupClaim) (task now_ms : ℕ) (r : WakeupRow) (t : Tables)
    → now_ms < c.lease_until_ms
    → carried c t ≡ true
    → lookup task t.wakeups ≡ some r
    → is_claimable now_ms r ≡ true
    → (task == c.task_id) ≡ false
claimable-other c task now_ms r t before h found free = elim (Bool-cases (task == c.task_id)) [
  | inr other ↦ other
  | inl same ↦ ground (
    arith,
    ap (λ k. lookup k t.wakeups) ((==_iff task c.task_id).0 same),
    Option-cases r.lease_until_ms,
  )
]

pub claim_wakeup-carried :
    (c : WakeupClaim) (task now_ms : ℕ) (owner : Text) (duration : ℕ) (t : Tables)
    → now_ms < c.lease_until_ms
    → carried c t ≡ true
    → carried c (tables_after (claim_wakeup task now_ms owner duration t) t) ≡ true
unfolding claim_wakeup validate_lease_owner to_sql_integer lease_until
claim_wakeup-carried c task now_ms owner duration t before h =
    elim (Option-cases (lookup task t.wakeups)) [
      | inl absent ↦ ground arith
      | inr (r, found) ↦ elim (Bool-cases (is_claimable now_ms r)) [
        | inr taken ↦ ground arith
        | inl free ↦
            let other = claimable-other c task now_ms r t before h found free in
            let end = now_ms + (if duration == 0 then 1 else duration) in
            ground (arith, set_row-carried c task (leased_to owner end r) t other h)
      ]
    ]

claim_candidates-carried :
    (c : WakeupClaim) (now_ms : ℕ) (owner : Text) (until : ℕ) (ws : List (ℕ × WakeupRow))
    (t : Tables)
    → now_ms < c.lease_until_ms
    → carried c t ≡ true
    → carried c (claim_candidates now_ms owner until ws t).1 ≡ true
unfolding claim_candidates
claim_candidates-carried c now_ms owner until [] t before h = h
claim_candidates-carried c now_ms owner until ((i, w) ∷ ws) t before h =
    claim_candidates-carried c now_ms owner until ws
      (claim_candidate now_ms owner until (i, w) (lookup i t.wakeups) t).1 before
      (elim (Option-cases (lookup i t.wakeups)) [
        | inl absent ↦ ground arith
        | inr (r, found) ↦ elim (Bool-cases (is_claimable now_ms r)) [
          | inr taken ↦ ground arith
          | inl free ↦ ground (
            arith,
            set_row-carried c i (leased_to owner until r) t
                (claimable-other c i now_ms r t before h found free) h,
          )
        ]
      ])

pub claim_due_wakeups-carried :
    (c : WakeupClaim) (now_ms limit : ℕ) (owner : Text) (duration : ℕ) (t : Tables)
    → now_ms < c.lease_until_ms
    → carried c t ≡ true
    → carried c (tables_after (claim_due_wakeups now_ms limit owner duration t) t) ≡ true
unfolding claim_due_wakeups validate_lease_owner to_sql_integer lease_until
claim_due_wakeups-carried c now_ms limit owner duration t before h =
    let end = now_ms + (if duration == 0 then 1 else duration) in
    let due = take (min limit max_wakeup_batch) (claimable_by_time now_ms t.wakeups) in
    ground (arith, claim_candidates-carried c now_ms owner end due t before h)
