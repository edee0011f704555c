-- ===== src/Durable/Catalog.antt =====
-- The quota of the program catalog: its counters are those of the programs that are not completed.
use tysel.Base.{
  ℕ, ◌+◌, ◌≤◌, ◌<◌, ◌≡◌, refl, none, some, List, [], ◌∷◌, true, ◌==◌, if◌then◌else◌, length, count,
  keys, lookup, insert, remove, lookup-insert, lookup-remove, count-keys-remove, count-keys-insert,
  remove_absent, lookup-keys, arith, inl, inr, Bool-cases, ==_iff, ap, sym, ◌∙◌, ok,
}
use tysel.Durable.{
  ProgramRow, CompletionRow, Tables, max_durable_programs, max_durable_program_total_bytes,
}
use tysel.Durable.Signals.{is_some}
use tysel.Durable.Programs.{add_program, retire_program}
use tysel.Durable.Completions.{delete_task}

-- The weight of the programs whose task is not completed.
abbrev pub active : (ProgramRow → ℕ) → List (ℕ × CompletionRow) → List (ℕ × ProgramRow) → ℕ
active weight done [] = 0
active weight done ((k, p) ∷ ps) =
    let rest = active weight done ps in if is_some (lookup k done) then rest else weight p + rest

abbrev pub one : ProgramRow → ℕ
one p = 1

abbrev pub size : ProgramRow → ℕ
size p = length p.source

module _ (weight : ProgramRow → ℕ) (done : List (ℕ × CompletionRow)) (k : ℕ) where
  pub active-insert :
      (p : ProgramRow) (ps : List (ℕ × ProgramRow))
      → lookup k ps ≡ none
      → lookup k done ≡ none
      → active weight done (insert k p ps) ≡ weight p + active weight done ps
  unfolding insert
  active-insert p ps fresh open_task = ground (arith, remove_absent k ps)

  pub active-remove :
      (p : ProgramRow) (ps : List (ℕ × ProgramRow))
      → lookup k ps ≡ some p
      → lookup k done ≡ none
      → count k (keys ps) ≤ 1
      → active weight done ps ≡ weight p + active weight done (remove k ps)
  unfolding lookup remove
  active-remove p [] h o u = ground arith
  active-remove p ((i, q) ∷ ps) h o u = elim (Bool-cases (i == k)) [
    | inl same ↦
        ground (
          arith,
          remove_absent k ps,
          lookup-keys k ps,
          ap (λ j. lookup j done) ((==_iff i k).0 same),
        )
    | inr other ↦ ground (arith, active-remove p ps)
  ]

  pub active-remove_completed :
      (r : CompletionRow) (ps : List (ℕ × ProgramRow))
      → lookup k done ≡ some r
      → active weight done (remove k ps) ≡ active weight done ps
  unfolding remove
  active-remove_completed r [] h = refl
  active-remove_completed r ((i, q) ∷ ps) h = elim (Bool-cases (i == k)) [
    | inl same ↦
        ground
          (arith, active-remove_completed r ps h, ap (λ j. lookup j done) ((==_iff i k).0 same))
    | inr other ↦ ground (arith, active-remove_completed r ps h)
  ]

  pub active_complete :
      (r : CompletionRow) (ps : List (ℕ × ProgramRow))
      → active weight (insert k r done) ps ≡ active weight done (remove k ps)
  unfolding remove
  active_complete r [] = refl
  active_complete r ((i, q) ∷ ps) =
      ground (arith, active_complete r ps, lookup-insert i k r done, ==_iff i k)

  pub active-forget :
      (ps : List (ℕ × ProgramRow))
      → active weight (remove k done) (remove k ps) ≡ active weight done (remove k ps)
  unfolding remove
  active-forget [] = refl
  active-forget ((i, q) ∷ ps) = ground (arith, active-forget ps, lookup-remove i k done, ==_iff i k)

-- The invariant of the catalog.
pub record IsCatalog (t : Tables) : Type 0 where
  pub unique : (k : ℕ) → count k (keys t.programs) ≤ 1
  pub once : (k : ℕ) → count k (keys t.completions) ≤ 1
  pub known :
      (k : ℕ) → is_some (lookup k t.completions) ≡ true → is_some (lookup k t.programs) ≡ true
  pub counted : t.program_stats.active_count ≡ active one t.completions t.programs
  pub sized : t.program_stats.active_bytes ≡ active size t.completions t.programs
  pub count_bounded : t.program_stats.active_count ≤ max_durable_programs
  pub bytes_bounded : t.program_stats.active_bytes ≤ max_durable_program_total_bytes

-- Only three tables matter.
pub IsCatalog-same :
    (t u : Tables)
    → IsCatalog t
    → u.programs ≡ t.programs
    → u.completions ≡ t.completions
    → u.program_stats ≡ t.program_stats
    → IsCatalog u
IsCatalog-same t u w p c s = record {
  unique = λ k. ground (arith, w.unique k, p);
  once = λ k. ground (arith, w.once k, c);
  known = λ k h. ground (arith, w.known k, p, c);
  counted = ground (arith, w.counted, p, c, s);
  sized = ground (arith, w.sized, p, c, s);
  count_bounded = ground (arith, w.count_bounded, s);
  bytes_bounded = ground (arith, w.bytes_bounded, s);
}

pub add_program-IsCatalog :
    (task : ℕ) (p : ProgramRow) (t : Tables)
    → IsCatalog t
    → lookup task t.programs ≡ none
    → lookup task t.completions ≡ none
    → t.program_stats.active_count < max_durable_programs
    → t.program_stats.active_bytes + length p.source ≤ max_durable_program_total_bytes
    → IsCatalog (add_program task p t)
add_program-IsCatalog task p t w fresh active_task room fits = record {
  unique = λ k. ground (arith, w.unique k, count-keys-insert k task p t.programs);
  once = w.once;
  known = λ k h. ground (arith, w.known k, lookup-insert k task p t.programs);
  counted =
      omega (arith, w.counted, active-insert one t.completions task p t.programs fresh active_task);
  sized =
      omega (arith, w.sized, active-insert size t.completions task p t.programs fresh active_task);
  count_bounded = omega arith;
  bytes_bounded = fits;
}

-- The counters of a program that is in the catalog and not completed can be taken back.
pub retire_program-total :
    (task : ℕ) (p : ProgramRow) (t : Tables)
    → IsCatalog t
    → lookup task t.programs ≡ some p
    → lookup task t.completions ≡ none
    → retire_program (length p.source) t
      ≡ ok (
        tt,
        record t {
          program_stats = record {
            active_count = active one t.completions (remove task t.programs);
            active_bytes = active size t.completions (remove task t.programs);
          };
        },
      )
retire_program-total task p t w found active_task =
    let ones =
      active-remove one t.completions task p t.programs found active_task (w.unique task) in
    let sizes =
      active-remove size t.completions task p t.programs found active_task (w.unique task) in
    ground (arith, ones, sizes, w.counted, w.sized)

-- Taking an open program out of the catalog, with its counters.
pub without_program-IsCatalog :
    (task : ℕ) (t : Tables)
    → IsCatalog t
    → lookup task t.completions ≡ none
    → active one t.completions (remove task t.programs) ≤ t.program_stats.active_count
    → active size t.completions (remove task t.programs) ≤ t.program_stats.active_bytes
    → IsCatalog (record t {
      programs = remove task t.programs;
      program_stats = record {
        active_count = active one t.completions (remove task t.programs);
        active_bytes = active size t.completions (remove task t.programs);
      };
    })
without_program-IsCatalog task t w active_task fewer less = record {
  unique = λ k. ground (arith, w.unique k, count-keys-remove k task t.programs);
  once = w.once;
  known = λ k h. ground (
    arith,
    w.known k,
    lookup-remove k task t.programs,
    ap (λ j. lookup j t.completions),
    ==_iff task k,
  );
  counted = refl;
  sized = refl;
  count_bounded = omega (arith, w.count_bounded, fewer);
  bytes_bounded = omega (arith, w.bytes_bounded, less);
}

-- Completing an open program.
pub completed_program-IsCatalog :
    (task : ℕ) (r : CompletionRow) (p : ProgramRow) (t : Tables)
    → IsCatalog t
    → lookup task t.programs ≡ some p
    → active one t.completions (remove task t.programs) ≤ t.program_stats.active_count
    → active size t.completions (remove task t.programs) ≤ t.program_stats.active_bytes
    → IsCatalog (record t {
      completions = insert task r t.completions;
      program_stats = record {
        active_count = active one t.completions (remove task t.programs);
        active_bytes = active size t.completions (remove task t.programs);
      };
    })
completed_program-IsCatalog task r p t w found fewer less = record {
  unique = w.unique;
  once = λ k. ground (arith, w.once k, count-keys-insert k task r t.completions);
  known = λ k h. elim (Bool-cases (task == k)) [
    | inl same ↦ ground (arith, ap (λ j. lookup j t.programs) ((==_iff task k).0 same))
    | inr other ↦ ground (arith, w.known k, lookup-insert k task r t.completions)
  ];
  counted = sym (active_complete one t.completions task r t.programs);
  sized = sym (active_complete size t.completions task r t.programs);
  count_bounded = omega (arith, w.count_bounded, fewer);
  bytes_bounded = omega (arith, w.bytes_bounded, less);
}

pub delete_task-IsCatalog :
    (task : ℕ) (r : CompletionRow) (t : Tables)
    → IsCatalog t
    → lookup task t.completions ≡ some r
    → IsCatalog (delete_task task t)
unfolding delete_task
delete_task-IsCatalog task r t w done = record {
  unique = λ k. ground (arith, w.unique k, count-keys-remove k task t.programs);
  once = λ k. ground (arith, w.once k, count-keys-remove k task t.completions);
  known = λ k h.
      ground
        (arith, w.known k, lookup-remove k task t.programs, lookup-remove k task t.completions);
  counted =
      w.counted
      ∙ sym (
          active-forget one t.completions task t.programs
          ∙ active-remove_completed one t.completions task r t.programs done);
  sized =
      w.sized
      ∙ sym (
          active-forget size t.completions task t.programs
          ∙ active-remove_completed size t.completions task r t.programs done);
  count_bounded = w.count_bounded;
  bytes_bounded = w.bytes_bounded;
}
