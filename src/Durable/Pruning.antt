-- ===== src/Durable/Pruning.antt =====
-- Pruning deletes completed tasks only, and keeps the quota.
use tysel.Base.{
  ℕ, zero, suc, ◌+◌, ◌≤◌, ◌≡◌, refl, List, [], ◌∷◌, Bool, true, false, not, ltb, ◌==◌, ◌&&◌, min,
  length, take, count, keys, lookup, remove, lookup-remove, Option, none, some, retain, ok, arith,
  ◌⊎◌, inl, inr, Bool-cases, Option-cases, ==_iff, ap, ◌∙◌, subst, length-take-le,
}
use tysel.Durable.{CompletionRow, EventRow, Tables, max_history_bytes}
use tysel.Durable.Tx.{to_sql_integer}
use tysel.Durable.Completions.{
  prune_candidates, prune_completed, prunable, weighed, insert_completed, delete_task, is_suspended,
}
use tysel.Durable.Catalog.{IsCatalog, delete_task-IsCatalog}

abbrev pub is_old_row : ℕ → Option CompletionRow → Bool
is_old_row before none = false
is_old_row before (some r) = ltb r.completed_at_ms before

-- The task was completed before the cutoff.
abbrev pub is_old : ℕ → ℕ → Tables → Bool
is_old before k t = is_old_row before (lookup k t.completions)

-- Candidates that were completed before the cutoff, each of them once.
abbrev AreDone : ℕ → List (ℕ × ℕ) → Tables → Type 0
AreDone before cs t =
    (k : ℕ)
    → (count k (keys cs) ≤ 1) × (ltb 0 (count k (keys cs)) ≡ true → is_old before k t ≡ true)

count-insert_completed :
    (k : ℕ) (c : ℕ × CompletionRow) (xs : List (ℕ × CompletionRow))
    → count k (keys (insert_completed c xs)) ≡ count k (keys (c ∷ xs))
unfolding insert_completed
count-insert_completed k c [] = refl
count-insert_completed k c (x ∷ xs) = ground (arith, count-insert_completed k c xs)

count-prunable :
    (k before : ℕ) (cs : List (ℕ × CompletionRow))
    → count k (keys (prunable before cs)) ≤ count k (keys cs)
unfolding prunable
count-prunable k before [] = omega arith
count-prunable k before ((i, r) ∷ cs) =
    ground (arith, count-prunable k before cs, count-insert_completed k (i, r) (prunable before cs))

count-take :
    (k n : ℕ) (cs : List (ℕ × CompletionRow)) → count k (keys (take n cs)) ≤ count k (keys cs)
count-take k zero cs = omega arith
count-take k (suc n) [] = omega arith
count-take k (suc n) (c ∷ cs) = ground (arith, count-take k n cs)

keys-weighed : (t : Tables) (cs : List (ℕ × CompletionRow)) → keys (weighed t cs) ≡ keys cs
unfolding weighed
keys-weighed t [] = refl
keys-weighed t ((i, r) ∷ cs) = ap (λ ks. i ∷ ks) (keys-weighed t cs)

prunable_old :
    (k before : ℕ) (cs : List (ℕ × CompletionRow))
    → count k (keys cs) ≤ 1
    → ltb 0 (count k (keys (prunable before cs))) ≡ true
    → is_old_row before (lookup k cs) ≡ true
unfolding prunable lookup
prunable_old k before [] once h = ground arith
prunable_old k before ((i, r) ∷ cs) once h =
    let le = count-prunable k before cs in
    let put = count-insert_completed k (i, r) (prunable before cs) in
    elim (Bool-cases (i == k)) [
      | inl same ↦ ground (arith, le, put)
      | inr other ↦
          let rest = prunable_old k before cs (ground arith) (ground (arith, put)) in ground arith
    ]

candidates-AreDone :
    (t : Tables) (before n : ℕ)
    → IsCatalog t
    → AreDone before (weighed t (take n (prunable before t.completions))) t
candidates-AreDone t before n w k =
    let same = ap (count k) (keys-weighed t (take n (prunable before t.completions))) in
    let le = count-take k n (prunable before t.completions) in
    let le' = count-prunable k before t.completions in
    (
      omega (arith, same, le, le', w.once k),
      λ h. prunable_old k before t.completions (w.once k) (ground (arith, same, le)),
    )

-- What pruning before a cutoff leaves behind: a well-formed catalog, and for each task that was not
-- completed before the cutoff everything as it was.
pub record IsPruned (before : ℕ) (t u : Tables) : Type 0 where
  pub catalog : IsCatalog u
  pub kept :
      (k : ℕ)
      → is_old before k t ≡ false
      → (lookup k u.programs ≡ lookup k t.programs)
        × (lookup k u.executions ≡ lookup k t.executions)
        × (lookup k u.completions ≡ lookup k t.completions)
        × (retain (λ e. e.task_id == k) u.events ≡ retain (λ e. e.task_id == k) t.events)
  pub untouched :
      (u.wakeups ≡ t.wakeups) × (u.waits ≡ t.waits) × (u.program_stats ≡ t.program_stats)

retain-other :
    (i k : ℕ) (es : List EventRow)
    → (i == k) ≡ false
    → retain (λ e. e.task_id == k) (retain (λ e. not (e.task_id == i)) es)
      ≡ retain (λ e. e.task_id == k) es
retain-other i k [] o = refl
retain-other i k (e ∷ es) o = ground (arith, retain-other i k es)

IsPruned-refl : (before : ℕ) (t : Tables) → IsCatalog t → IsPruned before t t
IsPruned-refl before t w = record {
  catalog = w;
  kept = λ k o. (refl, refl, refl, refl);
  untouched = (refl, refl, refl);
}

length-weighed : (t : Tables) (cs : List (ℕ × CompletionRow)) → length (weighed t cs) ≡ length cs
unfolding weighed
length-weighed t [] = refl
length-weighed t ((i, r) ∷ cs) = ap suc (length-weighed t cs)

delete_task-IsPruned :
    (before i : ℕ) (t : Tables)
    → IsCatalog t
    → is_old before i t ≡ true
    → IsPruned before t (delete_task i t)
unfolding delete_task
delete_task-IsPruned before i t w done = elim (Option-cases (lookup i t.completions)) [
  | inl absent ↦ ground arith
  | inr (r, here) ↦ record {
    catalog = delete_task-IsCatalog i r t w here;
    kept = λ k o.
        let other : (i == k) ≡ false = elim (Bool-cases (i == k)) [
          | inl same ↦ ground (arith, ap (λ j. lookup j t.completions) ((==_iff i k).0 same))
          | inr other ↦ other
        ] in
        (
          ground (arith, lookup-remove k i t.programs),
          ground (arith, lookup-remove k i t.executions),
          ground (arith, lookup-remove k i t.completions),
          retain-other i k t.events other,
        );
    untouched = (refl, refl, refl);
  }
]

IsPruned-trans :
    (before : ℕ) (t u v : Tables) → IsPruned before t u → IsPruned before u v → IsPruned before t v
IsPruned-trans before t u v p q = record {
  catalog = q.catalog;
  kept = λ k o.
      let (a, b, c, d) = p.kept k o in
      let (a', b', c', d') = q.kept k (ground (arith, c)) in (a' ∙ a, b' ∙ b, c' ∙ c, d' ∙ d);
  untouched =
      (q.untouched.0 ∙ p.untouched.0, q.untouched.1 ∙ p.untouched.1, q.untouched.2 ∙ p.untouched.2);
}

AreDone-rest :
    (before i size : ℕ) (cs : List (ℕ × ℕ)) (t : Tables)
    → AreDone before ((i, size) ∷ cs) t
    → AreDone before cs t
AreDone-rest before i size cs t d k = (ground (arith, (d k).0), λ h. (d k).1 (ground arith))

AreDone-delete :
    (before i size : ℕ) (cs : List (ℕ × ℕ)) (t : Tables)
    → AreDone before ((i, size) ∷ cs) t
    → AreDone before cs (delete_task i t)
unfolding delete_task
AreDone-delete before i size cs t d k = (
  ground (arith, (d k).0),
  λ h. elim (Bool-cases (i == k)) [
    | inl same ↦ ground (arith, (d k).0)
    | inr other ↦ ground (arith, (d k).1 (ground arith), lookup-remove k i t.completions)
  ],
)

length-remove_once :
    (k : ℕ) (cs : List (ℕ × CompletionRow)) → length (remove k cs) + count k (keys cs) ≡ length cs
unfolding remove
length-remove_once k [] = omega arith
length-remove_once k ((i, r) ∷ cs) = ground (arith, length-remove_once k cs)

count-old :
    (before k : ℕ) (cs : List (ℕ × CompletionRow))
    → is_old_row before (lookup k cs) ≡ true
    → ltb 0 (count k (keys cs)) ≡ true
unfolding lookup
count-old before k [] h = ground arith
count-old before k ((i, r) ∷ cs) h = ground (arith, count-old before k cs)

-- Deleting a candidate takes one completion away.
delete_task-counts :
    (before i : ℕ) (t : Tables)
    → IsCatalog t
    → is_old before i t ≡ true
    → length (delete_task i t).completions + 1 ≡ length t.completions
unfolding delete_task
delete_task-counts before i t w h =
    ground (arith, length-remove_once i t.completions, count-old before i t.completions h, w.once i)

prune_candidates-IsPruned :
    (before deleted bytes : ℕ) (cs : List (ℕ × ℕ)) (t : Tables)
    → IsCatalog t
    → AreDone before cs t
    → IsPruned before t (prune_candidates deleted bytes cs t).1
      × ((prune_candidates deleted bytes cs t).0 ≤ deleted + length cs)
      × (length (prune_candidates deleted bytes cs t).1.completions
            + (prune_candidates deleted bytes cs t).0
          ≡ length t.completions + deleted)
unfolding prune_candidates
prune_candidates-IsPruned before deleted bytes [] t w d =
    (IsPruned-refl before t w, omega arith, refl)
prune_candidates-IsPruned before deleted bytes ((i, size) ∷ cs) t w d =
    let first : is_old before i t ≡ true = (d i).1 (ground (arith, (==_iff i i).1 refl)) in
    let gone = delete_task-IsPruned before i t w first in
    let one = delete_task-counts before i t w first in
    let (skip, skipped, left) =
      prune_candidates-IsPruned before deleted bytes cs t w (AreDone-rest before i size cs t d) in
    let (go, pruned, fewer) =
      prune_candidates-IsPruned before (deleted + 1) (bytes + size) cs (delete_task i t)
        gone.catalog (AreDone-delete before i size cs t d) in
    elim (Bool-cases (ltb 0 deleted && ltb max_history_bytes (bytes + size))) [
      | inl full ↦ (
        subst (IsPruned before t) (ground arith) (IsPruned-refl before t w),
        ground arith,
        ground arith,
      )
      | inr room ↦ elim (Bool-cases (is_suspended i t)) [
        | inl live ↦ (subst (IsPruned before t) (ground arith) skip, ground arith, ground arith)
        | inr idle ↦ (
          subst (IsPruned before t) (ground arith) (
              IsPruned-trans before t (delete_task i t)
                (prune_candidates (deleted + 1) (bytes + size) cs (delete_task i t)).1 gone go),
          ground arith,
          ground (arith, one, fewer),
        )
      ]
    ]

-- `prune_completed` on a well-formed catalog deletes exactly as many completed tasks as it says, at
-- most `limit` and at most 100. It keeps the catalog well-formed and its counters the same, touches
-- neither wakeups nor waits, and leaves a task that was not completed before the cutoff with
-- its program, its execution, its completion and its events.
pub prune_completed-IsPruned :
    (before limit : ℕ) (t u : Tables) (n : ℕ)
    → IsCatalog t
    → prune_completed before limit t ≡ ok (n, u)
    → IsPruned before t u
      × (length u.completions + n ≡ length t.completions)
      × (n ≤ limit)
      × (n ≤ 100)
unfolding prune_completed to_sql_integer
prune_completed-IsPruned before limit t u n w h =
    let cs = weighed t (take (min limit 100) (prunable before t.completions)) in
    let (p, few, counted) =
      prune_candidates-IsPruned before 0 0 cs t w (candidates-AreDone t before (min limit 100) w) in
    let size = length-weighed t (take (min limit 100) (prunable before t.completions)) in
    let short = length-take-le (min limit 100) (prunable before t.completions) in
    elim (Bool-cases (limit == 0)) [
      | inl zero_limit ↦ (
        subst (IsPruned before t) (ground arith) (IsPruned-refl before t w),
        ground arith,
        ground arith,
        ground arith,
      )
      | inr some_limit ↦ (
        subst (IsPruned before t) (ground arith) p,
        ground (arith, counted),
        ground (arith, few, size, short),
        ground (arith, few, size, short),
      )
    ]

prune_candidates-executions :
    (deleted bytes : ℕ) (cs : List (ℕ × ℕ)) (k : ℕ) (t : Tables)
    → (lookup k (prune_candidates deleted bytes cs t).1.executions ≡ lookup k t.executions)
      ⊎ (lookup k (prune_candidates deleted bytes cs t).1.executions ≡ none)
unfolding prune_candidates delete_task
prune_candidates-executions deleted bytes [] k t = inl refl
prune_candidates-executions deleted bytes ((i, size) ∷ cs) k t =
    let skip = prune_candidates-executions deleted bytes cs k t in
    let go = prune_candidates-executions (deleted + 1) (bytes + size) cs k (delete_task i t) in
    let gone = lookup-remove k i t.executions in
    elim (Bool-cases (ltb 0 deleted && ltb max_history_bytes (bytes + size))) [
      | inl full ↦ inl (ground arith)
      | inr room ↦ elim (Bool-cases (is_suspended i t)) [
        | inl live ↦ elim skip [ inl kept ↦ inl (ground arith) | inr out ↦ inr (ground arith) ]
        | inr idle ↦ elim go [
          | inr out ↦ inr (ground arith)
          | inl kept ↦ elim (Bool-cases (i == k)) [
            | inl same ↦ inr (ground (arith, gone))
            | inr other ↦ inl (ground (arith, gone))
          ]
        ]
      ]
    ]

-- Pruning leaves an execution as it is, or deletes it.
pub prune_completed-executions :
    (before limit k : ℕ) (t u : Tables) (n : ℕ)
    → prune_completed before limit t ≡ ok (n, u)
    → (lookup k u.executions ≡ lookup k t.executions) ⊎ (lookup k u.executions ≡ none)
unfolding prune_completed to_sql_integer
prune_completed-executions before limit k t u n h =
    let cs = weighed t (take (min limit 100) (prunable before t.completions)) in
    let pruned = prune_candidates-executions 0 0 cs k t in
    elim (Bool-cases (limit == 0)) [
      | inl zero_limit ↦ inl (ground arith)
      | inr some_limit ↦ elim pruned [
        | inl kept ↦ inl (ground arith)
        | inr out ↦ inr (ground arith)
      ]
    ]
