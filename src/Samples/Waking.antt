-- ===== src/Samples/Waking.antt =====
-- Tests of the wakeups: one wakeup, leased to a worker.
use tysel.Base.{
  ◌≡◌, ◌⊎◌, refl, List, [], ◌∷◌, none, some, true, ok, lookup, insert, remove, text_eq, arith,
}
use tysel.Durable.{WakeupClaim, WakeupRow, Tables}
use tysel.Durable.Tx.{to_sql_integer}
use tysel.Durable.Wakeups.{claim_is_active, claim_wakeup, validate_lease_owner, lease_until}
use tysel.Durable.Leasing.{WakeupCall, claims, claims_due, completes, schedules, starts_run, run}
use tysel.Durable.Holding.{claim_is_active-run, claim_is_active_unique}
use tysel.Durable.Granting.{IsGranted, IsNotDue, claim_wakeup_outcomes}
use tysel.Samples.Durability.{worker, blank, clock, word}

abbrev leased : Tables
leased = record blank {
  wakeups =
      (
        7,
        record {
          sequence = 3;
          wake_at_ms = 20;
          lease_owner = some worker;
          lease_until_ms = some 90;
        },
      )
      ∷ [];
}

abbrev wakeup_claim : WakeupClaim
wakeup_claim = record {
  task_id = 7;
  sequence = 3;
  wake_at_ms = 20;
  lease_owner = worker;
  lease_until_ms = 90;
}

leased_active : claim_is_active wakeup_claim 30 leased ≡ ok (true, leased)
unfolding claim_is_active to_sql_integer lookup text_eq
leased_active = refl

abbrev rivals : List WakeupCall
rivals =
    claims 7 40 word 1000
    ∷ claims_due 60 10 word 5
    ∷ completes none clock 7 3 none 70
    ∷ schedules (record { task_id = 8; sequence = 1; wake_at_ms = 5 })
    ∷ starts_run (λ owner. owner) (record { before = 75; after = 76 }) 7 word 10
    ∷ []

claim_is_active-run_example :
    claim_is_active wakeup_claim 89 (run leased rivals) ≡ ok (true, run leased rivals)
claim_is_active-run_example =
    claim_is_active-run wakeup_claim 30 89 rivals leased leased_active refl (omega arith)

claim_is_active_unique_example : wakeup_claim ≡ wakeup_claim
claim_is_active_unique_example =
    claim_is_active_unique wakeup_claim wakeup_claim 30 leased refl leased_active leased_active

abbrev expired : Tables
expired = record leased {
  wakeups =
      (
        7,
        record { sequence = 3; wake_at_ms = 20; lease_owner = some word; lease_until_ms = some 30 },
      )
      ∷ [];
}

granted : claim_wakeup 7 30 worker 60 expired ≡ ok (some wakeup_claim, leased)
unfolding claim_wakeup validate_lease_owner to_sql_integer lease_until lookup insert remove
granted = refl

claim_wakeup_outcomes_example :
    ((some wakeup_claim ≡ none)
      × (leased ≡ expired)
      × ((lookup 7 expired.wakeups ≡ none)
          ⊎ ((r : WakeupRow) × (lookup 7 expired.wakeups ≡ some r) × IsNotDue 30 r)))
    ⊎ ((c : WakeupClaim) × (some wakeup_claim ≡ some c) × IsGranted 7 30 worker 60 expired c leased)
claim_wakeup_outcomes_example =
    claim_wakeup_outcomes 7 30 worker 60 expired leased (some wakeup_claim) granted
