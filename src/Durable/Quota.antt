-- ===== src/Durable/Quota.antt =====
-- Every call that touches the catalog keeps its quota.
use tysel.Base.{
  ℕ, ◌≡◌, Text, Option, none, some, Bool, length, lookup, insert, remove, ok, arith, ◌⊎◌, inl, inr,
  Option-cases, Result-cases, ap, sym, ◌∙◌, subst, codes,
}
use tysel.Durable.{
  Json, Sha256, DurableProgramKind, module_kind, completed, DurableProgram, ProgramRow,
  ExecutionClaim, CompletionRow, Tables, NewEvent, step,
}
use tysel.Durable.Tx.{to_sql_integer, checked_add}
use tysel.Durable.History.{ensure_open, raw_event, insert_event, next_sequence}
use tysel.Durable.Commits.{guard_execution-cases}
use tysel.Durable.Appends.{insert_event-IsInserted}
use tysel.Durable.Signals.{validate_key}
use tysel.Durable.Programs.{
  decode_program, select_program, program_row, put_program_inner, remove_program, add_program,
  validate_program_source, retire_program,
}
use tysel.Durable.Executions.{
  fingerprint, admit_new, admit, set_execution, ready_row, end_execution,
}
use tysel.Durable.Completions.{
  completion_time, complete_program, complete_open, finish_task, FinishClock, add_completion,
}
use tysel.Durable.Catalog.{
  IsCatalog, IsCatalog-same, active, one, size, add_program-IsCatalog, retire_program-total,
  without_program-IsCatalog, completed_program-IsCatalog, active-remove,
}

module _ (sha : Sha256) where
  decode_program-keeps :
      (task : ℕ) (r : ProgramRow) (t u : Tables) (p : DurableProgram)
      → decode_program sha task r t ≡ ok (p, u)
      → (u ≡ t) × (p.source ≡ r.source)
  unfolding decode_program validate_program_source
  decode_program-keeps task r t u p h = ground arith

  -- `select_program` reads the row of the task.
  pub select_program-reads :
      (task : ℕ) (t u : Tables) (found : Option DurableProgram)
      → select_program sha task t ≡ ok (found, u)
      → (u ≡ t)
        × (((found ≡ none) × (lookup task t.programs ≡ none))
            ⊎ ((p : DurableProgram) × (r : ProgramRow) × (found ≡ some p)
                × (lookup task t.programs ≡ some r)
                × (p.source ≡ r.source)))
  unfolding select_program
  select_program-reads task t u found h = elim (Option-cases (lookup task t.programs)) [
    | inl absent ↦ (ground arith, inl (ground arith, absent))
    | inr (r, here) ↦ elim (Result-cases (decode_program sha task r t)) [
      | inr (_, failed) ↦ ground arith
      | inl ((p, v), decoded) ↦
          let (same, sources) = decode_program-keeps task r t v p decoded in
          (ground (arith, same), inr (p, r, ground arith, here, sources))
    ]
  ]

  pub put_program_inner-IsCatalog :
      (task : ℕ) (kind : DurableProgramKind) (source : Text) (registered : ℕ) (t u : Tables)
      (found : Option DurableProgram)
      → IsCatalog t
      → put_program_inner sha task kind source registered t ≡ ok (found, u)
      → IsCatalog u
  unfolding put_program_inner validate_program_source to_sql_integer ensure_open checked_add
  put_program_inner-IsCatalog task kind source registered t u found w h =
      elim (Option-cases (lookup task t.completions)) [
        | inr (_, over) ↦ ground arith
        | inl active_task ↦ elim (Result-cases (select_program sha task t)) [
          | inr (_, failed) ↦ ground arith
          | inl ((existing, v), selected) ↦
              let (same, read) = select_program-reads task t v existing selected in
              elim read [
                | inr (p, _, there, _, _) ↦ subst IsCatalog (ground (arith, same, there)) w
                | inl (absent, fresh) ↦
                    let row = program_row sha kind source registered in
                    subst IsCatalog (ground (arith, same, absent)) (
                      add_program-IsCatalog task row t w fresh active_task
                        (ground (arith, same, absent)) (ground (arith, same, absent)))
              ]
        ]
      ]

  pub remove_program-IsCatalog :
      (task : ℕ) (t u : Tables) (found : Option DurableProgram)
      → IsCatalog t
      → remove_program sha task t ≡ ok (found, u)
      → IsCatalog u
  unfolding remove_program ensure_open
  remove_program-IsCatalog task t u found w h = elim (Option-cases (lookup task t.completions)) [
    | inr (_, over) ↦ ground arith
    | inl active_task ↦ elim (Result-cases (select_program sha task t)) [
      | inr (_, failed) ↦ ground arith
      | inl ((existing, v), selected) ↦
          let (same, read) = select_program-reads task t v existing selected in
          elim read [
            | inl (absent, fresh) ↦ subst IsCatalog (ground (arith, same, absent)) w
            | inr (p, r, there, here, sources) ↦
                let total = retire_program-total task r t w here active_task in
                let fewer =
                  active-remove one t.completions task r t.programs here active_task
                    (w.unique task) in
                let less =
                  active-remove size t.completions task r t.programs here active_task
                    (w.unique task) in
                subst IsCatalog (ground (arith, same, there, sources, total)) (
                  without_program-IsCatalog task t w active_task (omega (arith, fewer, w.counted))
                    (omega (arith, less, w.sized)))
          ]
    ]
  ]

module _ (json : Json) (sha : Sha256) where
  open json use {Value, to_text}

  pub fingerprint-keeps :
      (source input : Text) (t u : Tables) (out : Text × Text)
      → fingerprint json sha source input t ≡ ok (out, u)
      → u ≡ t
  unfolding fingerprint validate_program_source
  fingerprint-keeps source input t u out h = elim (Option-cases (json.parse input)) [
    | inl bad ↦ ground arith
    | inr (value, parsed) ↦ ground arith
  ]

  pub raw_event-keeps :
      (key input : Text) (time : ℕ) (t u : Tables) (e : NewEvent Value)
      → raw_event json step key input time t ≡ ok (e, u)
      → u ≡ t
  unfolding raw_event
  raw_event-keeps key input time t u e h = elim (Option-cases (json.parse input)) [
    | inl bad ↦ ground arith
    | inr (value, parsed) ↦ ground arith
  ]

  admit_new-IsCatalog :
      (task : ℕ) (key source hash input : Text) (time : ℕ) (t u : Tables) (a : Unit {0})
      → IsCatalog t
      → admit_new json sha task key source hash input time t ≡ ok (a, u)
      → IsCatalog u
  unfolding admit_new to_sql_integer
  admit_new-IsCatalog task key source hash input time t u a w h =
      elim (Result-cases (select_program sha task t)) [
        | inr (_, failed) ↦ ground arith
        | inl ((existing, v), selected) ↦
            let (same, read) = select_program-reads sha task t v existing selected in
            elim read [
              | inr (p, _, there, _, _) ↦ ground (arith, same)
              | inl (absent, fresh) ↦
                  let row = program_row sha module_kind source time in
                  let added = add_program task row t in
                  elim (Result-cases
                    (raw_event json step (codes "$tysel:task-input") input time added)) [
                      | inr (_, failed) ↦ ground (arith, same)
                      | inl ((e, x), made) ↦
                          let raw =
                            raw_event-keeps (codes "$tysel:task-input") input time added x e made in
                          elim (Result-cases (insert_event task (some 0) e input time added)) [
                            | inr (_, failed) ↦ ground (arith, same, raw)
                            | inl ((n, y), inserted) ↦
                                let i =
                                  insert_event-IsInserted task (some 0) e input time added n y
                                    inserted in
                                let end : u ≡ set_execution task (ready_row json sha key hash) y =
                                  ground (arith, same, raw) in
                                IsCatalog-same added u
                                  (add_program-IsCatalog task row t w fresh i.open_task
                                    (ground (arith, same)) (ground (arith, same)))
                                  (ap (λ z. z.programs) end ∙ ap (λ z. z.programs) i.tables)
                                  (ap (λ z. z.completions) end ∙ ap (λ z. z.completions) i.tables)
                                  (ap (λ z. z.program_stats) end
                                    ∙ ap (λ z. z.program_stats) i.tables)
                          ]
                    ]
            ]
      ]

  end_execution-IsCatalog :
      (task : ℕ) (t : Tables) → IsCatalog t → IsCatalog (end_execution task completed t)
  end_execution-IsCatalog task t w = elim (Option-cases (lookup task t.executions)) [
    | inl absent ↦ subst IsCatalog (ground arith) w
    | inr (r, here) ↦
        IsCatalog-same t (end_execution task completed t) w (ground arith) (ground arith)
          (ground arith)
  ]

  pub completion_time-reads :
      (task timestamp : ℕ) (until : Option ℕ) (now_ms : ℕ) (t u : Tables) (n : ℕ)
      → completion_time task timestamp until now_ms t ≡ ok (n, u)
      → u ≡ t
  unfolding completion_time
  completion_time-reads task timestamp none now_ms t u n h = ground arith
  completion_time-reads task timestamp (some until) now_ms t u n h = ground arith

  complete_program-IsCatalog :
      (x : Option ExecutionClaim) (clock : FinishClock) (task expected : ℕ) (result : Text) (at : ℕ)
      (until : Option ℕ) (p : ProgramRow) (t u : Tables) (done : Bool)
      → IsCatalog t
      → lookup task t.programs ≡ some p
      → lookup task t.completions ≡ none
      → complete_program x clock task expected result at until p t ≡ ok (done, u)
      → IsCatalog u
  unfolding complete_program to_sql_integer
  complete_program-IsCatalog x clock task expected result at until p t u done w here active_task h =
      elim (Result-cases (completion_time task at until clock.first t)) [
        | inr (_, failed) ↦ ground arith
        | inl ((n, t1), timed) ↦
            let same1 = completion_time-reads task at until clock.first t t1 n timed in
            let r : CompletionRow = record {
              next_sequence = next_sequence task t.events;
              result_json = result;
              completed_at_ms = n;
            } in
            let ones =
              active-remove one t.completions task p t.programs here active_task (w.unique task) in
            let sizes =
              active-remove size t.completions task p t.programs here active_task (w.unique task) in
            let v : Tables = record t {
              completions = insert task r t.completions;
              program_stats = record {
                active_count = active one t.completions (remove task t.programs);
                active_bytes = active size t.completions (remove task t.programs);
              };
            } in
            let good : IsCatalog v =
              completed_program-IsCatalog task r p t w here (omega (arith, ones, w.counted))
                (omega (arith, sizes, w.sized)) in
            let retired : retire_program (length p.source) (add_completion task r t) ≡ ok (tt, v) =
              ground (arith, ones, sizes, w.counted, w.sized) in
            elim (Result-cases (completion_time task n until clock.second v)) [
              | inr (_, failed) ↦ ground (arith, same1, retired)
              | inl ((m, t2), again) ↦
                  let same2 = completion_time-reads task n until clock.second v t2 m again in
                  elim (guard_execution-cases x task clock.after v) [
                    | inr (_, failed) ↦ ground (arith, same1, same2, retired)
                    | inl (passed, _) ↦
                        let end : u ≡ end_execution task completed v =
                          ground (arith, same1, same2, retired) in
                        subst IsCatalog (sym end) (end_execution-IsCatalog task v good)
                  ]
            ]
      ]

  pub finish_task-IsCatalog :
      (x : Option ExecutionClaim) (clock : FinishClock) (task expected : ℕ) (value : Value) (at : ℕ)
      (until : Option ℕ) (t u : Tables) (done : Bool)
      → IsCatalog t
      → finish_task json x clock task expected value at until t ≡ ok (done, u)
      → IsCatalog u
  unfolding finish_task complete_open to_sql_integer
  finish_task-IsCatalog x clock task expected value at until t u done w h =
      elim (Option-cases (lookup task t.completions)) [
        | inr (r, over) ↦
            subst IsCatalog (ground (arith, Option-cases (json.parse r.result_json))) w
        | inl active_task ↦ elim (guard_execution-cases x task clock.before t) [
          | inr (_, failed) ↦ ground arith
          | inl (passed, _) ↦ elim (Option-cases (lookup task t.programs)) [
            | inl absent ↦ subst IsCatalog (ground arith) w
            | inr (p, here) ↦
                complete_program-IsCatalog x clock task expected (to_text value) at until p t u done
                  w here active_task (ground arith)
          ]
        ]
      ]

  pub admit-IsCatalog :
      (task : ℕ) (key source input : Text) (time : ℕ) (t u : Tables) (a : Unit {0})
      → IsCatalog t
      → admit json sha task key source input time t ≡ ok (a, u)
      → IsCatalog u
  unfolding admit validate_key
  admit-IsCatalog task key source input time t u a w h =
      elim (Result-cases (fingerprint json sha source input t)) [
        | inr (_, failed) ↦ ground arith
        | inl (((hash, canonical), v), printed) ↦
            let same = fingerprint-keeps source input t v (hash, canonical) printed in
            elim (Option-cases (lookup task t.executions)) [
              | inr (r, here) ↦ subst IsCatalog (ground (arith, same)) w
              | inl absent ↦
                  admit_new-IsCatalog task key source hash canonical time t u a w
                    (ground (arith, same))
            ]
      ]
