-- ===== src/Durable/Wakeups.antt =====
-- Wakeups and the leases on them.
use tysel.Base.{
  ℕ, ◌+◌, Text, Option, none, some, List, [], ◌∷◌, Bool, true, false, leb, ltb, ◌==◌, if◌then◌else◌,
  ◌&&◌, ◌||◌, min, length, take, lookup, insert, remove, ok, codes,
}
use tysel.Durable.{
  Wakeup, WakeupClaim, ExecutionClaim, WakeupRow, Tables, integer_range, invalid_lease_owner,
  max_lease_owner_bytes,
}
use tysel.Durable.Tx.{Tx, ◌>>=◌, ◌>>◌, return, refuse_if, ok_or, read, write, to_sql_integer}
use tysel.Durable.History.{Clock, ensure_open, guard_execution, upsert_wakeup, later_than, owned_by}

abbrev pub max_wakeup_batch : ℕ
max_wakeup_batch = 10000

abbrev pub u64_max : ℕ
u64_max = 18446744073709551615

unfoldable pub validate_lease_owner : Text → Tx (Unit {0})
validate_lease_owner owner =
    refuse_if (length owner == 0 || ltb max_lease_owner_bytes (length owner)) invalid_lease_owner

-- `now_ms.checked_add(lease_duration_ms.max(1))`
abbrev pub lease_end : ℕ → ℕ → Option ℕ
lease_end now_ms duration =
    let end = now_ms + (if duration == 0 then 1 else duration) in
    if leb end u64_max then some end else none

unfoldable pub lease_until : ℕ → ℕ → Tx ℕ
lease_until now_ms duration = do
  end ← ok_or (lease_end now_ms duration) (integer_range (codes "lease_until_ms"))
  to_sql_integer end (codes "lease_until_ms")

-- `lease_until_ms IS NULL OR lease_until_ms <= now`
abbrev pub is_free : ℕ → Option ℕ → Bool
is_free now_ms none = true
is_free now_ms (some until) = leb until now_ms

abbrev pub is_claimable : ℕ → WakeupRow → Bool
is_claimable now_ms r = leb r.wake_at_ms now_ms && is_free now_ms r.lease_until_ms

abbrev pub leased_to : Text → ℕ → WakeupRow → WakeupRow
leased_to owner until r = record r { lease_owner = some owner; lease_until_ms = some until }

abbrev pub set_row : ℕ → WakeupRow → Tables → Tables
set_row task r t = record t { wakeups = insert task r t.wakeups }

abbrev pub drop_row : ℕ → Tables → Tables
drop_row task t = record t { wakeups = remove task t.wakeups }

abbrev pub claim_of : ℕ → Text → ℕ → WakeupRow → WakeupClaim
claim_of task owner until r = record {
  task_id = task;
  sequence = r.sequence;
  wake_at_ms = r.wake_at_ms;
  lease_owner = owner;
  lease_until_ms = until;
}

-- The select and the update of a claim, whose conditions are the same for the row selected.
abbrev pub claim_row : ℕ → ℕ → Text → ℕ → Option WakeupRow → Tx (Option WakeupClaim)
claim_row task now_ms owner until none t = ok (none, t)
claim_row task now_ms owner until (some r) t =
    if is_claimable now_ms r
    then ok (some (claim_of task owner until r), set_row task (leased_to owner until r) t)
    else ok (none, t)

unfoldable pub schedule_wakeup : Wakeup → Tx (Unit {0})
schedule_wakeup w = do
  ensure_open w.task_id
  sequence ← to_sql_integer w.sequence (codes "sequence")
  wake_at ← to_sql_integer w.wake_at_ms (codes "wake_at_ms")
  write (upsert_wakeup w.task_id sequence wake_at)

unfoldable pub claim_wakeup : ℕ → ℕ → Text → ℕ → Tx (Option WakeupClaim)
claim_wakeup task now_ms owner duration = do
  validate_lease_owner owner
  time ← to_sql_integer now_ms (codes "now_ms")
  until ← lease_until now_ms duration
  found ← read (λ t. lookup task t.wakeups)
  claim_row task now_ms owner until found

-- `ORDER BY wake_at_ms, task_id`
unfoldable pub is_before : ℕ × WakeupRow → ℕ × WakeupRow → Bool
is_before (i, r) (j, s) = ltb r.wake_at_ms s.wake_at_ms || (r.wake_at_ms == s.wake_at_ms && leb i j)

unfoldable pub insert_by_time : ℕ × WakeupRow → List (ℕ × WakeupRow) → List (ℕ × WakeupRow)
insert_by_time w [] = w ∷ []
insert_by_time w (x ∷ xs) =
    let rest = insert_by_time w xs in if is_before w x then w ∷ x ∷ xs else x ∷ rest

unfoldable pub claimable_by_time : ℕ → List (ℕ × WakeupRow) → List (ℕ × WakeupRow)
claimable_by_time now_ms [] = []
claimable_by_time now_ms ((i, r) ∷ ws) =
    let rest = claimable_by_time now_ms ws in
    if is_claimable now_ms r then insert_by_time (i, r) rest else rest

-- The update of one candidate, at the row that the table holds by then.
abbrev pub claim_candidate :
    ℕ → Text → ℕ → ℕ × WakeupRow → Option WakeupRow → Tables → Option WakeupClaim × Tables
claim_candidate now_ms owner until (i, c) none t = (none, t)
claim_candidate now_ms owner until (i, c) (some r) t =
    if r.sequence == c.sequence && is_claimable now_ms r
    then (some (claim_of i owner until c), set_row i (leased_to owner until r) t)
    else (none, t)

abbrev pub add_claim : Option WakeupClaim → List WakeupClaim → List WakeupClaim
add_claim none cs = cs
add_claim (some c) cs = c ∷ cs

unfoldable pub claim_candidates :
    ℕ → Text → ℕ → List (ℕ × WakeupRow) → Tables → List WakeupClaim × Tables
claim_candidates now_ms owner until [] t = ([], t)
claim_candidates now_ms owner until (w ∷ ws) t =
    let (claim, after) = claim_candidate now_ms owner until w (lookup w.0 t.wakeups) t in
    let (claims, last) = claim_candidates now_ms owner until ws after in
    (add_claim claim claims, last)

unfoldable pub claim_due_wakeups : ℕ → ℕ → Text → ℕ → Tx (List WakeupClaim)
claim_due_wakeups now_ms limit owner duration = do
  validate_lease_owner owner
  (if limit == 0 then return [] else (do
    time ← to_sql_integer now_ms (codes "now_ms")
    until ← lease_until now_ms duration
    due ← read (λ t. take (min limit max_wakeup_batch) (claimable_by_time now_ms t.wakeups))
    λ t. ok (claim_candidates now_ms owner until due t)))

abbrev pub is_none : Option Text → Bool
is_none none = true
is_none (some _) = false

-- The condition of `complete_wakeup` on the row, under an owner or under none.
abbrev pub is_completed_by : ℕ → Option Text → ℕ → WakeupRow → Bool
is_completed_by sequence none now_ms r = r.sequence == sequence && is_none r.lease_owner
is_completed_by sequence (some owner) now_ms r =
    r.sequence == sequence && owned_by owner r.lease_owner && later_than now_ms r.lease_until_ms

abbrev pub validate_owner : Option Text → Tx (Unit {0})
validate_owner none = return tt
validate_owner (some owner) = validate_lease_owner owner

abbrev pub complete_row : ℕ → ℕ → Option Text → ℕ → Option WakeupRow → Tx Bool
complete_row task sequence owner now_ms none t = ok (false, t)
complete_row task sequence owner now_ms (some r) t =
    if is_completed_by sequence owner now_ms r then ok (true, drop_row task t) else ok (false, t)

unfoldable pub complete_wakeup : Option ExecutionClaim → Clock → ℕ → ℕ → Option Text → ℕ → Tx Bool
complete_wakeup execution clock task sequence owner now_ms = do
  guard_execution execution task clock.before
  number ← to_sql_integer sequence (codes "sequence")
  time ← to_sql_integer now_ms (codes "now_ms")
  validate_owner owner
  found ← read (λ t. lookup task t.wakeups)
  changed ← complete_row task sequence owner now_ms found
  guard_execution execution task clock.after
  return changed

abbrev pub ends_at : ℕ → Option ℕ → Bool
ends_at until none = false
ends_at until (some u) = u == until

-- The row carries exactly this claim.
abbrev pub carries : WakeupClaim → WakeupRow → Bool
carries c r =
    r.sequence == c.sequence
    && r.wake_at_ms == c.wake_at_ms
    && owned_by c.lease_owner r.lease_owner
    && ends_at c.lease_until_ms r.lease_until_ms

abbrev pub is_active_row : WakeupClaim → ℕ → Option WakeupRow → Bool
is_active_row c now_ms none = false
is_active_row c now_ms (some r) = carries c r && later_than now_ms r.lease_until_ms

unfoldable pub claim_is_active : WakeupClaim → ℕ → Tx Bool
claim_is_active c now_ms = do
  to_sql_integer c.sequence (codes "sequence")
  to_sql_integer c.wake_at_ms (codes "wake_at_ms")
  to_sql_integer c.lease_until_ms (codes "lease_until_ms")
  to_sql_integer now_ms (codes "now_ms")
  read (λ t. is_active_row c now_ms (lookup c.task_id t.wakeups))

abbrev pub renew_row : WakeupClaim → ℕ → ℕ → Option WakeupRow → Tx (Option WakeupClaim)
renew_row c now_ms until none t = ok (none, t)
renew_row c now_ms until (some r) t =
    if carries c r && later_than now_ms r.lease_until_ms
    then ok (
      some (record c { lease_until_ms = until }),
      set_row c.task_id (record r { lease_until_ms = some until }) t,
    )
    else ok (none, t)

unfoldable pub renew_wakeup_claim : WakeupClaim → ℕ → ℕ → Tx (Option WakeupClaim)
renew_wakeup_claim c now_ms duration = do
  validate_lease_owner c.lease_owner
  until ← lease_until now_ms duration
  to_sql_integer c.sequence (codes "sequence")
  to_sql_integer c.wake_at_ms (codes "wake_at_ms")
  to_sql_integer c.lease_until_ms (codes "lease_until_ms")
  to_sql_integer now_ms (codes "now_ms")
  found ← read (λ t. lookup c.task_id t.wakeups)
  renew_row c now_ms until found

abbrev pub release_row : WakeupClaim → Option WakeupRow → Tx Bool
release_row c none t = ok (false, t)
release_row c (some r) t =
    if carries c r
    then ok (true, set_row c.task_id (record r { lease_owner = none; lease_until_ms = none }) t)
    else ok (false, t)

unfoldable pub release_wakeup_claim : WakeupClaim → Tx Bool
release_wakeup_claim c = do
  validate_lease_owner c.lease_owner
  to_sql_integer c.sequence (codes "sequence")
  to_sql_integer c.wake_at_ms (codes "wake_at_ms")
  to_sql_integer c.lease_until_ms (codes "lease_until_ms")
  found ← read (λ t. lookup c.task_id t.wakeups)
  release_row c found

abbrev pub wakeup_of : ℕ → Option WakeupRow → Option Wakeup
wakeup_of task none = none
wakeup_of task (some r) =
    some (record { task_id = task; sequence = r.sequence; wake_at_ms = r.wake_at_ms })

unfoldable pub wakeup : ℕ → Tables → Option Wakeup
wakeup task t = wakeup_of task (lookup task t.wakeups)
