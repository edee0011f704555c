-- ===== src/Samples/Catalogs.antt =====
-- Tests of the catalog and of executions: one module is admitted, claimed and completed.
use tysel.Base.{
  ◌+◌, length, ◌≡◌, ◌⊎◌, ◌≤◌, refl, List, [], ◌∷◌, none, some, true, false, Text, ok, err, lookup,
  insert, remove, text_eq, arith,
}
use tysel.Durable.{Sha256, script, Tables, ExecutionClaim, DurableError, running}
use tysel.Durable.Tx.{to_sql_integer, checked_add}
use tysel.Durable.History.{Clock, guard_execution}
use tysel.Durable.Wakeups.{validate_lease_owner}
use tysel.Durable.Executions.{claim_run, start_run}
use tysel.Durable.Completions.{prune_completed, prunable, weighed, delete_task, insert_completed}
use tysel.Durable.Catalog.{IsCatalog}
use tysel.Durable.Pruning.{IsPruned, prune_completed-IsPruned}
use tysel.Durable.CatalogRuns
use tysel.Durable.CatalogRuns.{
  CatalogCall, puts, removes, admits, finishes, run_catalog, empty_store, run_catalog-IsCatalog,
}
use tysel.Durable.Runs.{IsStarted, IsRefused, claim_run_outcomes}
use tysel.Durable.Superseded.{
  ExecutionCall, claims_run, releases_run, prunes, run_executions, has_fresh_tokens,
  superseded_forever,
}
use tysel.Samples.Durability.{plain, blank, word, claim7, worker}

abbrev plain_sha : Sha256
plain_sha = record { digest = λ text. text; hex_digest = λ text. text }

abbrev catalog_calls : List (CatalogCall plain plain_sha)
catalog_calls =
    puts 7 script word 1
    ∷ admits 8 word word word 2
    ∷ finishes none (record { before = 3; first = 3; second = 3; after = 3 }) 8 1 word 3 none
    ∷ CatalogRuns.prunes 10 5
    ∷ removes 7
    ∷ []

run_catalog-IsCatalog_example : IsCatalog (run_catalog plain plain_sha empty_store catalog_calls)
run_catalog-IsCatalog_example = run_catalog-IsCatalog plain plain_sha catalog_calls

abbrev with_program : Tables
with_program = record blank {
  programs =
      (7, record { program_kind = word; source = word; source_sha256 = word; registered_at_ms = 1 })
      ∷ [];
}

abbrev later : Clock
later = record { before = 200; after = 201 }

abbrev renewed_claim : ExecutionClaim
renewed_claim = record {
  task_id = 7;
  owner = word;
  generation = 3;
  lease_until_ms = 1200;
  wakeup = none;
}

abbrev resumed : Tables
resumed = record with_program {
  executions =
      (
        7,
        record {
          state = running;
          generation = 3;
          owner = some word;
          lease_until_ms = some 1200;
          admission_key = none;
          request_hash = none;
        },
      )
      ∷ [];
}

abbrev as_token : Text → Text
as_token owner = owner

claimed_again : claim_run as_token later 7 word 1000 with_program ≡ ok (some renewed_claim, resumed)
unfolding claim_run start_run validate_lease_owner checked_add to_sql_integer lookup insert remove
claimed_again = refl

claim_run_outcomes_example :
    ((some renewed_claim ≡ none) × (resumed ≡ with_program) × IsRefused later 7 1000 with_program)
    ⊎ ((c : ExecutionClaim) × (some renewed_claim ≡ some c)
        × IsStarted word later 7 1000 with_program c resumed)
claim_run_outcomes_example =
    claim_run_outcomes as_token later 7 word 1000 with_program resumed (some renewed_claim)
      claimed_again

abbrev fresh_token : Text → Text
fresh_token owner = 1 ∷ owner

abbrev more_calls : List (ExecutionCall plain plain_sha)
more_calls =
    claims_run as_token later 7 worker 50
    ∷ releases_run later renewed_claim false
    ∷ prunes 10 5
    ∷ claims_run fresh_token later 7 worker 50
    ∷ []

other_tokens : has_fresh_tokens plain plain_sha false claim7 more_calls ≡ true
unfolding text_eq
other_tokens = refl

superseded_forever_example :
    (e : DurableError) × (guard_execution
        (some claim7)
        7
        205
        (run_executions plain plain_sha resumed more_calls)
      ≡ err e)
unfolding lookup text_eq
superseded_forever_example =
    superseded_forever plain plain_sha as_token later 7 word 1000 with_program resumed renewed_claim
      claim7 10 claimed_again refl more_calls 205 other_tokens

abbrev finished : Tables
finished = record empty_store {
  programs =
      (8, record { program_kind = word; source = word; source_sha256 = word; registered_at_ms = 1 })
      ∷ [];
  completions = (8, record { next_sequence = 1; result_json = word; completed_at_ms = 3 }) ∷ [];
}

finished-IsCatalog : IsCatalog finished
unfolding lookup
finished-IsCatalog = record {
  unique = λ k. ground arith;
  once = λ k. ground arith;
  known = λ k h. ground arith;
  counted = refl;
  sized = refl;
  count_bounded = omega arith;
  bytes_bounded = omega arith;
}

pruned : prune_completed 10 5 finished ≡ ok (1, empty_store)
unfolding prune_completed prunable insert_completed weighed delete_task to_sql_integer lookup insert
    remove
pruned = refl

prune_completed-IsPruned_example :
    IsPruned 10 finished empty_store
    × (length empty_store.completions + 1 ≡ length finished.completions)
    × (1 ≤ 5)
    × (1 ≤ 100)
prune_completed-IsPruned_example =
    prune_completed-IsPruned 10 5 finished empty_store 1 finished-IsCatalog pruned
