-- ===== src/Durable/Fencing.antt =====
-- An execution claim that was superseded or released is fenced for good.
use tysel.Base.{
  ℕ, ◌≡◌, Text, Option, none, some, Bool, true, false, not, ltb, ◌==◌, if◌then◌else◌, ◌&&◌, ◌||◌,
  lookup, lookup-insert, lookup-insert_self, ok, err, arith, ◌⊎◌, inl, inr, Bool-cases,
  Option-cases, ==_iff, ap, sym, ◌∙◌,
}
use tysel.Durable.{ExecutionRow, ExecutionClaim, Tables, DurableError, RunState}
use tysel.Durable.Tx.{checked_add}
use tysel.Durable.History.{Clock, guard_execution, owned_by}
use tysel.Durable.Commits.{holds, guard_execution-cases}
use tysel.Durable.Executions.{claim_run, run_row, end_execution}
use tysel.Durable.Runs.{IsStarted, claim_run_outcomes}

abbrev pub is_vacant : Option Text → Bool
is_vacant none = true
is_vacant (some _) = false

-- The execution has gone on to a later generation, or nobody owns this one any more. Once
-- completed tasks were pruned, the execution may also be gone, or be owned under another token.
abbrev pub is_past : Bool → ExecutionClaim → Option ExecutionRow → Bool
is_past pruned d none = pruned
is_past pruned d (some r) =
    (ltb d.generation r.generation || (r.generation == d.generation && is_vacant r.owner))
    || (pruned && not (owned_by d.owner r.owner))

abbrev pub IsFenced : Bool → ExecutionClaim → Tables → Type 0
IsFenced pruned d t = is_past pruned d (lookup d.task_id t.executions) ≡ true

-- After a prune no claim draws the token of this one.
abbrev pub is_other_token : Bool → ExecutionClaim → Text → Bool
is_other_token pruned d token = not pruned || not (owned_by d.owner (some token))

-- A fenced claim holds at no time, so every guarded call under it fails.
pub IsFenced-guard :
    (pruned : Bool) (d : ExecutionClaim) (task now_ms : ℕ) (t : Tables)
    → IsFenced pruned d t
    → (e : DurableError) × (guard_execution (some d) task now_ms t ≡ err e)
IsFenced-guard pruned d task now_ms t f = elim (guard_execution-cases (some d) task now_ms t) [
  | inr refused ↦ refused
  | inl (_, held) ↦
      let same : task ≡ d.task_id = (==_iff task d.task_id).0 (ground arith) in
      let here = ap (λ k. lookup k t.executions) same in
      elim (Option-cases (lookup d.task_id t.executions)) [
        | inl absent ↦ ground arith
        | inr (r, found) ↦ ground (arith, here, Option-cases r.owner)
      ]
]

pub claim_run-past :
    (token : Text → Text) (clock : Clock) (task : ℕ) (owner : Text) (duration : ℕ) (t u : Tables)
    (pruned : Bool) (c d : ExecutionClaim)
    → IsStarted (token owner) clock task duration t c u
    → is_other_token pruned d (token owner) ≡ true
    → IsFenced pruned d t
    → IsFenced pruned d u
unfolding checked_add
claim_run-past token clock task owner duration t u pruned c d s fresh f =
    let row = run_row (token owner) c.generation c.lease_until_ms (lookup task t.executions) in
    let found : lookup d.task_id u.executions
        ≡ (if task == d.task_id then some row else lookup d.task_id t.executions) =
      ap (lookup d.task_id) s.executions ∙ lookup-insert d.task_id task row t.executions in
    elim (Bool-cases (task == d.task_id)) [
      | inr other ↦ ground (arith, found)
      | inl same ↦
          let here = ap (λ k. lookup k t.executions) ((==_iff task d.task_id).0 same) in
          elim (Option-cases (lookup d.task_id t.executions)) [
            | inl absent ↦ ground (arith, found, here)
            | inr (r, old) ↦ ground (arith, found, here, s.next)
          ]
    ]

-- A new claim fences every claim of the same task that held before it.
pub claim_run-IsFenced :
    (token : Text → Text) (clock : Clock) (task : ℕ) (owner : Text) (duration : ℕ) (t u : Tables)
    (c d : ExecutionClaim) (now_ms : ℕ)
    → claim_run token clock task owner duration t ≡ ok (some c, u)
    → holds (some d) task now_ms t ≡ true
    → IsFenced false d u
unfolding checked_add
claim_run-IsFenced token clock task owner duration t u c d now_ms h held =
    elim (claim_run_outcomes token clock task owner duration t u (some c) h) [
      | inl (bad, _, _) ↦ ground arith
      | inr (c', given, s) ↦
          let row =
            run_row (token owner) c'.generation c'.lease_until_ms (lookup task t.executions) in
          let same : task ≡ d.task_id = (==_iff task d.task_id).0 (ground arith) in
          let found : lookup d.task_id u.executions ≡ some row =
            ap (λ k. lookup k u.executions) (sym same)
            ∙ ap (lookup task) s.executions
            ∙ lookup-insert_self task row t.executions in
          elim (Option-cases (lookup task t.executions)) [
            | inl absent ↦ ground arith
            | inr (r, old) ↦ ground (arith, found, s.next)
          ]
    ]

pub end_execution-lookup :
    (task k : ℕ) (state : RunState) (t : Tables)
    → (lookup k (end_execution task state t).executions ≡ lookup k t.executions)
      ⊎ ((r : ExecutionRow) × (task ≡ k)
          × (lookup k t.executions ≡ some r)
          × (lookup k (end_execution task state t).executions
              ≡ some (record r { state = state; owner = none; lease_until_ms = none })))
end_execution-lookup task k state t = elim (Option-cases (lookup task t.executions)) [
  | inl absent ↦ inl (ground arith)
  | inr (r, found) ↦
      let written =
        lookup-insert k task (record r { state = state; owner = none; lease_until_ms = none })
          t.executions in
      elim (Bool-cases (task == k)) [
        | inr other ↦ inl (ground (arith, written))
        | inl same ↦
            let e = (==_iff task k).0 same in
            inr (r, e, ap (λ j. lookup j t.executions) (sym e) ∙ found, ground (arith, written))
      ]
]

pub end_execution-past :
    (task : ℕ) (state : RunState) (pruned : Bool) (d : ExecutionClaim) (t : Tables)
    → IsFenced pruned d t
    → IsFenced pruned d (end_execution task state t)
end_execution-past task state pruned d t f = elim (end_execution-lookup task d.task_id state t) [
  | inl same ↦ ground (arith, same)
  | inr (r, _, found, ended) ↦ ground (arith, found, ended)
]

-- What is fenced before a prune is fenced after it.
pub IsFenced-pruned :
    (pruned : Bool) (d : ExecutionClaim) (t : Tables) → IsFenced pruned d t → IsFenced true d t
IsFenced-pruned pruned d t f = elim (Option-cases (lookup d.task_id t.executions)) [
  | inl absent ↦ ground arith
  | inr (r, found) ↦ ground arith
]
