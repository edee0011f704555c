-- ===== src/Durable/Superseded.antt =====
-- Sequences of calls on executions.
use tysel.Base.{
  ℕ, ◌≡◌, Text, Option, some, List, [], ◌∷◌, Bool, true, false, ◌&&◌, ◌==◌, if◌then◌else◌, length,
  lookup, lookup-insert, insert, ok, err, arith, inl, inr, Bool-cases, Option-cases, Result-cases,
  ==_iff, ap, sym, ◌∙◌, codes, subst,
}
use tysel.Durable.{
  Json, Sha256, ExecutionClaim, CompletionRow, ProgramRow, Tables, DurableError, completed, failed,
  suspended, step, module_kind,
}
use tysel.Durable.Tx.{to_sql_integer}
use tysel.Durable.History.{Clock, guard_execution, insert_event, raw_event, next_sequence}
use tysel.Durable.Commits.{holds, guard_execution-cases}
use tysel.Durable.Appends.{insert_event-IsInserted}
use tysel.Durable.Signals.{validate_key}
use tysel.Durable.Programs.{select_program, add_program, program_row, retire_program}
use tysel.Durable.Executions.{
  claim_run, release_run, end_execution, unlease_row, set_execution, admit, admit_new, fingerprint,
  ready_row,
}
use tysel.Durable.Completions.{
  FinishClock, prune_completed, finish_task, complete_open, complete_program, completion_time,
  add_completion,
}
use tysel.Durable.Leasing.{tables_after}
use tysel.Durable.Quota.{
  select_program-reads, fingerprint-keeps, raw_event-keeps, completion_time-reads,
}
use tysel.Durable.Pruning.{prune_completed-executions}
use tysel.Durable.Runs.{claim_run_outcomes}
use tysel.Durable.Fencing.{
  is_past, is_other_token, IsFenced, IsFenced-guard, IsFenced-pruned, claim_run-past,
  end_execution-past, claim_run-IsFenced,
}

unlease_row-keeps :
    (task : ℕ) (t : Tables) → (unlease_row task (lookup task t.wakeups) t).executions ≡ t.executions
unlease_row-keeps task t = elim (Option-cases (lookup task t.wakeups)) [
  | inl absent ↦ ground arith
  | inr (w, here) ↦ ground arith
]

-- The tables that a successful release leaves.
pub release_run-ends :
    (clock : Clock) (c : ExecutionClaim) (is_failure : Bool) (t u : Tables) (a : Unit {0})
    → release_run clock c is_failure t ≡ ok (a, u)
    → u
      ≡ end_execution c.task_id
          (if is_failure then failed else suspended)
          (unlease_row c.task_id (lookup c.task_id t.wakeups) t)
unfolding release_run
release_run-ends clock c is_failure t u a h =
    elim (guard_execution-cases (some c) c.task_id clock.before t) [
      | inr (_, refused) ↦ ground arith
      | inl (passed, _) ↦
          elim (guard_execution-cases (some c) c.task_id clock.after
            (unlease_row c.task_id (lookup c.task_id t.wakeups) t)) [
              | inr (_, refused) ↦ ground arith
              | inl (again, _) ↦ ground arith
            ]
    ]

release_run-past :
    (clock : Clock) (pruned : Bool) (c d : ExecutionClaim) (is_failure : Bool) (t u : Tables)
    (a : Unit {0})
    → release_run clock c is_failure t ≡ ok (a, u)
    → IsFenced pruned d t
    → IsFenced pruned d u
release_run-past clock pruned c d is_failure t u a h f =
    let v = unlease_row c.task_id (lookup c.task_id t.wakeups) t in
    let g : IsFenced pruned d v =
      ground (arith, ap (lookup d.task_id) (unlease_row-keeps c.task_id t)) in
    subst (IsFenced pruned d) (sym (release_run-ends clock c is_failure t u a h))
      (end_execution-past c.task_id (if is_failure then failed else suspended) pruned d v g)

module _ (json : Json) (sha : Sha256) where
  open json use {Value, to_text}

  complete_program-past :
      (x : Option ExecutionClaim) (clock : FinishClock) (task expected : ℕ) (result : Text) (at : ℕ)
      (until : Option ℕ) (p : ProgramRow) (t u : Tables) (pruned done : Bool) (d : ExecutionClaim)
      → complete_program x clock task expected result at until p t ≡ ok (done, u)
      → IsFenced pruned d t
      → IsFenced pruned d u
  unfolding complete_program to_sql_integer
  complete_program-past x clock task expected result at until p t u pruned done d h f =
      elim (Result-cases (completion_time task at until clock.first t)) [
        | inr (_, refused) ↦ ground arith
        | inl ((n, t1), timed) ↦
            let same1 = completion_time-reads json sha task at until clock.first t t1 n timed in
            let r : CompletionRow = record {
              next_sequence = next_sequence task t.events;
              result_json = result;
              completed_at_ms = n;
            } in
            elim (Result-cases (retire_program (length p.source) (add_completion task r t))) [
              | inr (_, refused) ↦ ground (arith, same1)
              | inl ((b, v), retired) ↦
                  let kept : v.executions ≡ t.executions = ground arith in
                  elim (Result-cases (completion_time task n until clock.second v)) [
                    | inr (_, refused) ↦ ground (arith, same1)
                    | inl ((m, t2), again) ↦
                        let same2 =
                          completion_time-reads json sha task n until clock.second v t2 m again in
                        elim (guard_execution-cases x task clock.after v) [
                          | inr (_, refused) ↦ ground (arith, same1, same2)
                          | inl (passed, _) ↦
                              let end : u ≡ end_execution task completed v =
                                ground (arith, same1, same2) in
                              subst (IsFenced pruned d) (sym end) (
                                end_execution-past task completed pruned d v
                                  (ap (λ es. is_past pruned d (lookup d.task_id es)) kept ∙ f))
                        ]
                  ]
            ]
      ]

  finish_task-past :
      (x : Option ExecutionClaim) (clock : FinishClock) (task expected : ℕ) (value : Value) (at : ℕ)
      (until : Option ℕ) (t u : Tables) (pruned done : Bool) (d : ExecutionClaim)
      → finish_task json x clock task expected value at until t ≡ ok (done, u)
      → IsFenced pruned d t
      → IsFenced pruned d u
  unfolding finish_task complete_open to_sql_integer
  finish_task-past x clock task expected value at until t u pruned done d h f =
      elim (Option-cases (lookup task t.completions)) [
        | inr (r, over) ↦
            let same : u ≡ t = ground (arith, Option-cases (json.parse r.result_json)) in
            subst (IsFenced pruned d) (sym same) f
        | inl active_task ↦ elim (guard_execution-cases x task clock.before t) [
          | inr (_, refused) ↦ ground arith
          | inl (passed, _) ↦ elim (Option-cases (lookup task t.programs)) [
            | inl absent ↦ let same : u ≡ t = ground arith in subst (IsFenced pruned d) (sym same) f
            | inr (p, here) ↦
                complete_program-past x clock task expected (to_text value) at until p t u pruned
                  done d (ground arith) f
          ]
        ]
      ]

  admit_new-executions :
      (task : ℕ) (key source hash input : Text) (time : ℕ) (t u : Tables) (a : Unit {0})
      → admit_new json sha task key source hash input time t ≡ ok (a, u)
      → u.executions ≡ insert task (ready_row json sha key hash) t.executions
  unfolding admit_new to_sql_integer
  admit_new-executions task key source hash input time t u a h =
      elim (Result-cases (select_program sha task t)) [
        | inr (_, refused) ↦ ground arith
        | inl ((existing, v), selected) ↦
            let (same, read) = select_program-reads sha task t v existing selected in
            let added = add_program task (program_row sha module_kind source time) t in
            elim read [
              | inr (p, _, there, _, _) ↦ ground (arith, same)
              | inl (absent, fresh) ↦
                  elim (Result-cases
                    (raw_event json step (codes "$tysel:task-input") input time added)) [
                      | inr (_, refused) ↦ ground (arith, same)
                      | inl ((e, x), made) ↦
                          let raw =
                            raw_event-keeps json sha (codes "$tysel:task-input") input time added x
                              e made in
                          elim (Result-cases (insert_event task (some 0) e input time added)) [
                            | inr (_, refused) ↦ ground (arith, same, raw)
                            | inl ((n, y), inserted) ↦
                                let i =
                                  insert_event-IsInserted task (some 0) e input time added n y
                                    inserted in
                                let end : u ≡ set_execution task (ready_row json sha key hash) y =
                                  ground (arith, same, raw) in
                                ap (λ z. z.executions) end
                                ∙ ap (λ z. insert task (ready_row json sha key hash) z.executions)
                                    i.tables
                          ]
                    ]
            ]
      ]

  admit-past :
      (task : ℕ) (key source input : Text) (time : ℕ) (t u : Tables) (a : Unit {0}) (pruned : Bool)
      (d : ExecutionClaim)
      → admit json sha task key source input time t ≡ ok (a, u)
      → IsFenced pruned d t
      → IsFenced pruned d u
  unfolding admit validate_key
  admit-past task key source input time t u a pruned d h f =
      elim (Result-cases (fingerprint json sha source input t)) [
        | inr (_, refused) ↦ ground arith
        | inl (((hash, canonical), v), printed) ↦
            let same = fingerprint-keeps json sha source input t v (hash, canonical) printed in
            elim (Option-cases (lookup task t.executions)) [
              | inr (r, here) ↦
                  let kept : u ≡ t = ground (arith, same) in subst (IsFenced pruned d) (sym kept) f
              | inl absent ↦
                  let rows =
                    admit_new-executions task key source hash canonical time t u a
                      (ground (arith, same)) in
                  let row = ready_row json sha key hash in
                  elim (Bool-cases (task == d.task_id)) [
                    | inl mine ↦ ground (
                      arith,
                      ap (λ k. lookup k t.executions) ((==_iff task d.task_id).0 mine),
                      ap (lookup d.task_id) rows,
                      lookup-insert d.task_id task row t.executions,
                    )
                    | inr other ↦ ground (
                      arith,
                      ap (lookup d.task_id) rows,
                      lookup-insert d.task_id task row t.executions,
                    )
                  ]
            ]
      ]

  pub data ExecutionCall : Type 0 where
    claims_run :
        (token : Text → Text) → Clock → (task : ℕ) → (owner : Text) → (duration : ℕ) → ExecutionCall
    releases_run : Clock → ExecutionClaim → (is_failure : Bool) → ExecutionCall
    finishes :
        Option ExecutionClaim
        → FinishClock
        → (task expected : ℕ) → Value
        → (at : ℕ) → (until : Option ℕ) → ExecutionCall
    admits : (task : ℕ) → (key source input : Text) → (time : ℕ) → ExecutionCall
    prunes : (before limit : ℕ) → ExecutionCall

  unfoldable pub after_execution : ExecutionCall → Tables → Tables
  after_execution (claims_run token clock task owner duration) t =
      tables_after (claim_run token clock task owner duration t) t
  after_execution (releases_run clock c is_failure) t =
      tables_after (release_run clock c is_failure t) t
  after_execution (finishes x clock task expected value at until) t =
      tables_after (finish_task json x clock task expected value at until t) t
  after_execution (admits task key source input time) t =
      tables_after (admit json sha task key source input time t) t
  after_execution (prunes before limit) t = tables_after (prune_completed before limit t) t

  abbrev pub run_executions : Tables → List ExecutionCall → Tables
  run_executions t [] = t
  run_executions t (x ∷ xs) = run_executions (after_execution x t) xs

  -- Whether completed tasks may have been pruned by the end of a call.
  abbrev pub is_pruned : Bool → ExecutionCall → Bool
  is_pruned pruned (prunes before limit) = true
  is_pruned pruned (claims_run token clock task owner duration) = pruned
  is_pruned pruned (releases_run clock c is_failure) = pruned
  is_pruned pruned (finishes x clock task expected value at until) = pruned
  is_pruned pruned (admits task key source input time) = pruned

  abbrev pub is_other_claim : Bool → ExecutionClaim → ExecutionCall → Bool
  is_other_claim pruned d (claims_run token clock task owner duration) =
      is_other_token pruned d (token owner)
  is_other_claim pruned d (prunes before limit) = true
  is_other_claim pruned d (releases_run clock c is_failure) = true
  is_other_claim pruned d (finishes x clock task expected value at until) = true
  is_other_claim pruned d (admits task key source input time) = true

  -- After the first prune no claim draws the token of `d`.
  abbrev pub has_fresh_tokens : Bool → ExecutionClaim → List ExecutionCall → Bool
  has_fresh_tokens pruned d [] = true
  has_fresh_tokens pruned d (x ∷ xs) =
      is_other_claim pruned d x && has_fresh_tokens (is_pruned pruned x) d xs

  after_execution-past :
      (x : ExecutionCall) (pruned : Bool) (d : ExecutionClaim) (t : Tables)
      → is_other_claim pruned d x ≡ true
      → IsFenced pruned d t
      → IsFenced (is_pruned pruned x) d (after_execution x t)
  unfolding after_execution
  after_execution-past (claims_run token clock task owner duration) pruned d t fresh f =
      elim (Result-cases (claim_run token clock task owner duration t)) [
        | inr (_, refused) ↦ ground (arith, f)
        | inl ((found, u), done) ↦
            elim (claim_run_outcomes token clock task owner duration t u found done) [
              | inl (_, same, _) ↦ ground (arith, f)
              | inr (c, _, started) ↦ ground (
                arith,
                claim_run-past token clock task owner duration t u pruned c d started fresh f,
              )
            ]
      ]
  after_execution-past (releases_run clock c is_failure) pruned d t fresh f =
      elim (Result-cases (release_run clock c is_failure t)) [
        | inr (_, refused) ↦ ground (arith, f)
        | inl ((a, u), done) ↦
            ground (arith, release_run-past clock pruned c d is_failure t u a done f)
      ]
  after_execution-past (finishes x clock task expected value at until) pruned d t fresh f =
      elim (Result-cases (finish_task json x clock task expected value at until t)) [
        | inr (_, refused) ↦ ground (arith, f)
        | inl ((b, u), done) ↦
            ground
              (arith, finish_task-past x clock task expected value at until t u pruned b d done f)
      ]
  after_execution-past (admits task key source input time) pruned d t fresh f =
      elim (Result-cases (admit json sha task key source input time t)) [
        | inr (_, refused) ↦ ground (arith, f)
        | inl ((a, u), done) ↦
            ground (arith, admit-past task key source input time t u a pruned d done f)
      ]
  after_execution-past (prunes before limit) pruned d t fresh f =
      let wide = IsFenced-pruned pruned d t f in
      elim (Result-cases (prune_completed before limit t)) [
        | inr (_, refused) ↦ ground (arith, wide)
        | inl ((n, u), done) ↦ elim (prune_completed-executions before limit d.task_id t u n done) [
          | inl kept ↦ ground (arith, wide, kept)
          | inr gone ↦ ground (arith, gone)
        ]
      ]

  run_executions-past :
      (xs : List ExecutionCall) (pruned : Bool) (d : ExecutionClaim) (t : Tables)
      → has_fresh_tokens pruned d xs ≡ true
      → IsFenced pruned d t
      → (later : Bool) × IsFenced later d (run_executions t xs)
  run_executions-past [] pruned d t fresh f = (pruned, f)
  run_executions-past (x ∷ xs) pruned d t fresh f =
      run_executions-past xs (is_pruned pruned x) d (after_execution x t) (ground arith)
        (after_execution-past x pruned d t (ground arith) f)

  -- Once a new claim of a task is granted, every claim of the task that held before it is refused by
  -- the execution guard for good: through every sequence of claims, releases, completions,
  -- admissions and prunes, whichever of them fail, and at every time. Pruning deletes the execution
  -- with its generation, so the claims that follow the first prune are taken to draw other tokens
  -- than that of the old claim, as fresh entropy gives them; before it they may draw any.
  pub superseded_forever :
      (token : Text → Text) (clock : Clock) (task : ℕ) (owner : Text) (duration : ℕ) (t u : Tables)
      (c d : ExecutionClaim) (held_ms : ℕ)
      → claim_run token clock task owner duration t ≡ ok (some c, u)
      → holds (some d) task held_ms t ≡ true
      → (xs : List ExecutionCall) (now_ms : ℕ) → has_fresh_tokens false d xs ≡ true
      → (e : DurableError) × (guard_execution (some d) task now_ms (run_executions u xs) ≡ err e)
  superseded_forever token clock task owner duration t u c d held_ms granted held xs now_ms fresh =
      let first = claim_run-IsFenced token clock task owner duration t u c d held_ms granted held in
      let (later, last) = run_executions-past xs false d u fresh first in
      IsFenced-guard later d task now_ms (run_executions u xs) last
