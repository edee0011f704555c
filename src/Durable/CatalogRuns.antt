-- ===== src/Durable/CatalogRuns.antt =====
-- The quota over all sequences of calls from an empty store.
use tysel.Base.{ℕ, refl, Text, Option, List, [], ◌∷◌, lookup, arith, inl, inr, Result-cases}
use tysel.Durable.{Json, Sha256, DurableProgramKind, ExecutionClaim, Tables}
use tysel.Durable.Programs.{put_program_inner, remove_program}
use tysel.Durable.Executions.{admit}
use tysel.Durable.Completions.{FinishClock, finish_task, prune_completed}
use tysel.Durable.Leasing.{tables_after}
use tysel.Durable.Catalog.{IsCatalog}
use tysel.Durable.Quota.{
  put_program_inner-IsCatalog, remove_program-IsCatalog, admit-IsCatalog, finish_task-IsCatalog,
}
use tysel.Durable.Pruning.{prune_completed-IsPruned}

-- The tables of a new store.
abbrev pub empty_store : Tables
empty_store = record {
  events = [];
  stats = [];
  wakeups = [];
  waits = [];
  inbox = [];
  last_signal_id = 0;
  executions = [];
  receipts = [];
  programs = [];
  program_stats = record { active_count = 0; active_bytes = 0 };
  completions = [];
}

empty_store-IsCatalog : IsCatalog empty_store
unfolding lookup
empty_store-IsCatalog = record {
  unique = λ k. omega arith;
  once = λ k. omega arith;
  known = λ k h. h;
  counted = refl;
  sized = refl;
  count_bounded = omega arith;
  bytes_bounded = omega arith;
}

module _ (json : Json) (sha : Sha256) where
  open json use {Value}

  pub data CatalogCall : Type 0 where
    puts : (task : ℕ) → DurableProgramKind → (source : Text) → (registered_at_ms : ℕ) → CatalogCall
    removes : (task : ℕ) → CatalogCall
    admits : (task : ℕ) → (key source input : Text) → (time : ℕ) → CatalogCall
    finishes :
        Option ExecutionClaim
        → FinishClock
        → (task expected : ℕ) → Value
        → (at : ℕ) → (until : Option ℕ) → CatalogCall
    prunes : (before_ms limit : ℕ) → CatalogCall

  unfoldable pub after_catalog : CatalogCall → Tables → Tables
  after_catalog (puts task kind source at) t =
      tables_after (put_program_inner sha task kind source at t) t
  after_catalog (removes task) t = tables_after (remove_program sha task t) t
  after_catalog (admits task key source input time) t =
      tables_after (admit json sha task key source input time t) t
  after_catalog (finishes x clock task expected value at until) t =
      tables_after (finish_task json x clock task expected value at until t) t
  after_catalog (prunes before limit) t = tables_after (prune_completed before limit t) t

  abbrev pub run_catalog : Tables → List CatalogCall → Tables
  run_catalog t [] = t
  run_catalog t (x ∷ xs) = run_catalog (after_catalog x t) xs

  after_catalog-IsCatalog :
      (x : CatalogCall) (t : Tables) → IsCatalog t → IsCatalog (after_catalog x t)
  unfolding after_catalog
  after_catalog-IsCatalog (puts task kind source at) t w =
      elim (Result-cases (put_program_inner sha task kind source at t)) [
        | inr (_, refused) ↦ ground (arith, w)
        | inl ((a, u), done) ↦
            ground (arith, put_program_inner-IsCatalog sha task kind source at t u a w done)
      ]
  after_catalog-IsCatalog (removes task) t w = elim (Result-cases (remove_program sha task t)) [
    | inr (_, refused) ↦ ground (arith, w)
    | inl ((a, u), done) ↦ ground (arith, remove_program-IsCatalog sha task t u a w done)
  ]
  after_catalog-IsCatalog (admits task key source input time) t w =
      elim (Result-cases (admit json sha task key source input time t)) [
        | inr (_, refused) ↦ ground (arith, w)
        | inl ((a, u), done) ↦
            ground (arith, admit-IsCatalog json sha task key source input time t u a w done)
      ]
  after_catalog-IsCatalog (finishes x clock task expected value at until) t w =
      elim (Result-cases (finish_task json x clock task expected value at until t)) [
        | inr (_, refused) ↦ ground (arith, w)
        | inl ((a, u), done) ↦ ground (
          arith,
          finish_task-IsCatalog json sha x clock task expected value at until t u a w done,
        )
      ]
  after_catalog-IsCatalog (prunes before limit) t w =
      elim (Result-cases (prune_completed before limit t)) [
        | inr (_, refused) ↦ ground (arith, w)
        | inl ((n, u), done) ↦
            ground (arith, (prune_completed-IsPruned before limit t u n w done).0.catalog)
      ]

  run_catalog_keeps :
      (xs : List CatalogCall) (t : Tables) → IsCatalog t → IsCatalog (run_catalog t xs)
  run_catalog_keeps [] t w = w
  run_catalog_keeps (x ∷ xs) t w =
      run_catalog_keeps xs (after_catalog x t) (after_catalog-IsCatalog x t w)

  -- From an empty store, every sequence of registrations, removals, admissions, completions and
  -- prunings, whichever of them fail, keeps the quota: the counters are exactly the number and the
  -- bytes of the programs whose task is not completed, they stay within the two limits, each task
  -- has at most one program and one completion, and a completed task still has its program.
  pub run_catalog-IsCatalog : (xs : List CatalogCall) → IsCatalog (run_catalog empty_store xs)
  run_catalog-IsCatalog xs = run_catalog_keeps xs empty_store empty_store-IsCatalog
