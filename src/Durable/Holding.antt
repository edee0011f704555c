-- ===== src/Durable/Holding.antt =====
-- A lease on a wakeup that has not run out stays with its holder.
use tysel.Base.{
  ℕ, ◌+◌, ◌<◌, ◌≡◌, refl, Text, Option, none, some, List, [], ◌∷◌, true, false, ltb, ◌==◌,
  if◌then◌else◌, ◌||◌, all, length, lookup, ok, err, text_eq, text_eq_iff, arith, ◌⊎◌, inl, inr,
  Bool-cases, Option-cases, Result-cases, ==_iff, ap,
}
use tysel.Durable.{
  WakeupClaim, ExecutionClaim, DurableError, WakeupRow, Tables, invalid_lease_owner,
  max_lease_owner_bytes,
}
use tysel.Durable.Tx.{to_sql_integer}
use tysel.Durable.History.{Clock, owned_by}
use tysel.Durable.Commits.{guard_execution-cases}
use tysel.Durable.Wakeups.{
  validate_lease_owner, lease_until, complete_wakeup, complete_row, claim_is_active,
  renew_wakeup_claim, release_wakeup_claim, carries, validate_owner, is_completed_by,
}
use tysel.Durable.Overwrites.{schedule_wakeup-carried, release_run-carried, claim_run-carried}
use tysel.Durable.Leasing.{
  WakeupCall, claims, claims_due, completes, renews, releases, schedules, starts_run, ends_run,
  tables_after, after, run, carried, is_foreign, set_row-carried, drop_row-carried,
  claim_wakeup-carried, claim_due_wakeups-carried,
}

-- The row that carries a claim is completed, renewed and released only in the name of its owner.
owned-other :
    (c : WakeupClaim) (task : ℕ) (owner : Option Text) (sequence now_ms : ℕ) (r : WakeupRow)
    (t : Tables)
    → owned_by c.lease_owner owner ≡ false
    → carried c t ≡ true
    → lookup task t.wakeups ≡ some r
    → is_completed_by sequence owner now_ms r ≡ true
    → (task == c.task_id) ≡ false
owned-other c task none sequence now_ms r t foreign h found done =
    elim (Bool-cases (task == c.task_id)) [
      | inr other ↦ other
      | inl same ↦ ground (
        arith,
        ap (λ k. lookup k t.wakeups) ((==_iff task c.task_id).0 same),
        Option-cases r.lease_owner,
      )
    ]
owned-other c task (some owner) sequence now_ms r t foreign h found done =
    elim (Bool-cases (task == c.task_id)) [
      | inr other ↦ other
      | inl same ↦ elim (Option-cases r.lease_owner) [
        | inl absent ↦ ground arith
        | inr (o, owned) ↦ ground (
          arith,
          ap (λ k. lookup k t.wakeups) ((==_iff task c.task_id).0 same),
          text_eq_iff o owner,
          text_eq_iff o c.lease_owner,
          text_eq_iff owner c.lease_owner,
        )
      ]
    ]

complete_row-carried :
    (c : WakeupClaim) (task sequence : ℕ) (owner : Option Text) (now_ms : ℕ) (t : Tables)
    → owned_by c.lease_owner owner ≡ false
    → carried c t ≡ true
    → carried c (tables_after (complete_row task sequence owner now_ms (lookup task t.wakeups) t) t)
      ≡ true
complete_row-carried c task sequence owner now_ms t foreign h =
    elim (Option-cases (lookup task t.wakeups)) [
      | inl absent ↦ ground arith
      | inr (r, found) ↦ elim (Bool-cases (is_completed_by sequence owner now_ms r)) [
        | inr kept ↦ ground arith
        | inl done ↦ ground (
          arith,
          drop_row-carried c task t
              (owned-other c task owner sequence now_ms r t foreign h found done) h,
        )
      ]
    ]

validate_owner-cases :
    (owner : Option Text) (t : Tables)
    → (validate_owner owner t ≡ ok (tt, t))
      ⊎ ((e : DurableError) × (validate_owner owner t ≡ err e))
unfolding validate_lease_owner
validate_owner-cases none t = inl refl
validate_owner-cases (some owner) t =
    elim (Bool-cases (length owner == 0 || ltb max_lease_owner_bytes (length owner))) [
      | inl bad ↦ inr (invalid_lease_owner, ground arith)
      | inr good ↦ inl (ground arith)
    ]

complete_wakeup-carried :
    (c : WakeupClaim) (x : Option ExecutionClaim) (clock : Clock) (task sequence : ℕ)
    (owner : Option Text) (now_ms : ℕ) (t : Tables)
    → owned_by c.lease_owner owner ≡ false
    → carried c t ≡ true
    → carried c (tables_after (complete_wakeup x clock task sequence owner now_ms t) t) ≡ true
unfolding complete_wakeup to_sql_integer validate_lease_owner
complete_wakeup-carried c x clock task sequence owner now_ms t foreign h =
    let kept = complete_row-carried c task sequence owner now_ms t foreign h in
    elim (guard_execution-cases x task clock.before t) [
      | inr (_, failed) ↦ ground arith
      | inl (passed, _) ↦
          elim (Result-cases (complete_row task sequence owner now_ms (lookup task t.wakeups) t)) [
            | inr (_, failed) ↦ ground (arith, validate_owner-cases owner t)
            | inl ((b, u), done) ↦ elim (guard_execution-cases x task clock.after u) [
              | inr (_, failed) ↦ ground (arith, validate_owner-cases owner t)
              | inl (passed_after, _) ↦ ground (arith, validate_owner-cases owner t)
            ]
          ]
    ]

carries-owner :
    (c d : WakeupClaim) (r : WakeupRow)
    → carries c r ≡ true
    → carries d r ≡ true
    → d.lease_owner ≡ c.lease_owner
carries-owner c d r hc hd = elim (Option-cases r.lease_owner) [
  | inl absent ↦ ground arith
  | inr (o, owned) ↦ ground (arith, text_eq_iff o c.lease_owner, text_eq_iff o d.lease_owner)
]

-- A row that carries the claim of another worker is the row of another task.
foreign-other :
    (c d : WakeupClaim) (r : WakeupRow) (t : Tables)
    → text_eq d.lease_owner c.lease_owner ≡ false
    → carried c t ≡ true
    → lookup d.task_id t.wakeups ≡ some r
    → carries d r ≡ true
    → (d.task_id == c.task_id) ≡ false
foreign-other c d r t foreign h found hd = elim (Bool-cases (d.task_id == c.task_id)) [
  | inr other ↦ other
  | inl same ↦ ground (
    arith,
    ap (λ k. lookup k t.wakeups) ((==_iff d.task_id c.task_id).0 same),
    carries-owner c d r,
    text_eq_iff d.lease_owner c.lease_owner,
  )
]

renew_wakeup_claim-carried :
    (c d : WakeupClaim) (now_ms duration : ℕ) (t : Tables)
    → text_eq d.lease_owner c.lease_owner ≡ false
    → carried c t ≡ true
    → carried c (tables_after (renew_wakeup_claim d now_ms duration t) t) ≡ true
unfolding renew_wakeup_claim validate_lease_owner to_sql_integer lease_until
renew_wakeup_claim-carried c d now_ms duration t foreign h =
    elim (Option-cases (lookup d.task_id t.wakeups)) [
      | inl absent ↦ ground arith
      | inr (r, found) ↦ elim (Bool-cases (carries d r)) [
        | inr lost ↦ ground arith
        | inl held ↦
            let end = now_ms + (if duration == 0 then 1 else duration) in
            ground (
              arith,
              set_row-carried c d.task_id (record r { lease_until_ms = some end }) t
                  (foreign-other c d r t foreign h found held) h,
            )
      ]
    ]

release_wakeup_claim-carried :
    (c d : WakeupClaim) (t : Tables)
    → text_eq d.lease_owner c.lease_owner ≡ false
    → carried c t ≡ true
    → carried c (tables_after (release_wakeup_claim d t) t) ≡ true
unfolding release_wakeup_claim validate_lease_owner to_sql_integer
release_wakeup_claim-carried c d t foreign h = elim (Option-cases (lookup d.task_id t.wakeups)) [
  | inl absent ↦ ground arith
  | inr (r, found) ↦ elim (Bool-cases (carries d r)) [
    | inr lost ↦ ground arith
    | inl held ↦ ground (
      arith,
      set_row-carried c d.task_id (record r { lease_owner = none; lease_until_ms = none }) t
          (foreign-other c d r t foreign h found held) h,
    )
  ]
]

after-carried :
    (c : WakeupClaim) (x : WakeupCall) (t : Tables)
    → is_foreign c x ≡ true
    → carried c t ≡ true
    → carried c (after x t) ≡ true
unfolding after
after-carried c (claims task now_ms owner duration) t f h =
    claim_wakeup-carried c task now_ms owner duration t (ground arith) h
after-carried c (claims_due now_ms limit owner duration) t f h =
    claim_due_wakeups-carried c now_ms limit owner duration t (ground arith) h
after-carried c (completes x clock task sequence owner now_ms) t f h =
    complete_wakeup-carried c x clock task sequence owner now_ms t (ground arith) h
after-carried c (renews d now_ms duration) t f h =
    renew_wakeup_claim-carried c d now_ms duration t (ground arith) h
after-carried c (releases d) t f h = release_wakeup_claim-carried c d t (ground arith) h
after-carried c (schedules w) t f h = schedule_wakeup-carried c w t (ground arith) h
after-carried c (starts_run token clock task owner duration) t f h =
    claim_run-carried c token clock task owner duration t (ground arith) h
after-carried c (ends_run clock d is_failure) t f h =
    release_run-carried c clock d is_failure t (ground arith) h

run-carried :
    (c : WakeupClaim) (xs : List WakeupCall) (t : Tables)
    → all (is_foreign c) xs ≡ true
    → carried c t ≡ true
    → carried c (run t xs) ≡ true
run-carried c [] t f h = h
run-carried c (x ∷ xs) t f h =
    run-carried c xs (after x t) (ground arith) (after-carried c x t (ground arith) h)

-- While the lease of an active claim runs, no sequence of these calls takes it away: claims of
-- wakeups and of executions of any task at any time before its end; completions, renewals and
-- releases of wakeups that name another owner or none; and schedulings of wakeups and releases of
-- executions of other tasks. The claim is active until its end.
pub claim_is_active-run :
    (c : WakeupClaim) (now_ms later_ms : ℕ) (xs : List WakeupCall) (t : Tables)
    → claim_is_active c now_ms t ≡ ok (true, t)
    → all (is_foreign c) xs ≡ true
    → later_ms < c.lease_until_ms
    → claim_is_active c later_ms (run t xs) ≡ ok (true, run t xs)
unfolding claim_is_active to_sql_integer
claim_is_active-run c now_ms later_ms xs t active foreign before =
    let kept = run-carried c xs t foreign (elim (Option-cases (lookup c.task_id t.wakeups)) [
      | inl absent ↦ ground arith
      | inr (r, found) ↦ ground arith
    ]) in
    elim (Option-cases (lookup c.task_id (run t xs).wakeups)) [
      | inl absent ↦ ground arith
      | inr (r, found) ↦ elim (Option-cases r.lease_until_ms) [
        | inl absent ↦ ground arith
        | inr (until, ends) ↦ ground arith
      ]
    ]

-- At any time at most one claim of a task is active: two active claims of one task are equal.
pub claim_is_active_unique :
    (c d : WakeupClaim) (now_ms : ℕ) (t : Tables)
    → c.task_id ≡ d.task_id
    → claim_is_active c now_ms t ≡ ok (true, t)
    → claim_is_active d now_ms t ≡ ok (true, t)
    → c ≡ d
unfolding claim_is_active to_sql_integer
claim_is_active_unique c d now_ms t same hc hd = elim (Option-cases (lookup c.task_id t.wakeups)) [
  | inl absent ↦ ground arith
  | inr (r, found) ↦
      let owners = carries-owner c d r in
      elim (Option-cases r.lease_until_ms) [
        | inl absent ↦ ground (arith, same)
        | inr (until, ends) ↦ ground (arith, same, owners)
      ]
]
