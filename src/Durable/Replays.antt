-- ===== src/Durable/Replays.antt =====
-- Replaying a recorded history through the cursor.
use tysel.Base.{
  ◌+◌, ◌≡◌, refl, Text, text_eq_iff, Option, none, some, List, [], ◌∷◌, ◌++◌, true, length,
  get_elem?, Result, ok, err, arith, Bool-cases, Option-cases, inl, inr, ◌⊎◌, map, length-append,
  ap,
}
use tysel.Durable.{EventKind, TaskEvent, step, effect, sleep, signal, retry, now, random}
use tysel.Durable.Replay.{
  ReplayCursor, ReplayError, kind_eq, replay, matches, consume_event, ensure_consumed, mismatch,
  history_remaining,
}

pub kind_eq_refl : (k : EventKind) → kind_eq k k ≡ true
unfolding kind_eq
kind_eq_refl step = refl
kind_eq_refl effect = refl
kind_eq_refl sleep = refl
kind_eq_refl signal = refl
kind_eq_refl retry = refl
kind_eq_refl now = refl
kind_eq_refl random = refl

pub kind_eq-≡ : (j k : EventKind) → kind_eq j k ≡ true → j ≡ k
unfolding kind_eq
kind_eq-≡ j k h = ground arith

module _ {V : Type 0} where
  pub matches_iff :
      (kind : EventKind) (key : Text) (e : TaskEvent V)
      → (matches kind key e ≡ true → (e.kind ≡ kind) × (e.key ≡ key))
        × ((e.kind ≡ kind) × (e.key ≡ key) → matches kind key e ≡ true)
  unfolding matches
  matches_iff kind key e = (
    λ h. (kind_eq-≡ e.kind kind (ground arith), (text_eq_iff e.key key).0 (ground arith)),
    λ h. ground (arith, h.0, h.1, kind_eq_refl kind, (text_eq_iff key key).1 refl),
  )

  get_elem?-append :
      (xs ys : List (TaskEvent V)) (e : TaskEvent V) → get_elem? (xs ++ e ∷ ys) (length xs) ≡ some e
  get_elem?-append [] ys e = refl
  get_elem?-append (x ∷ xs) ys e = get_elem?-append xs ys e

  get_elem?-length : (xs : List (TaskEvent V)) → get_elem? xs (length xs) ≡ none
  get_elem?-length [] = refl
  get_elem?-length (x ∷ xs) = get_elem?-length xs

  -- A run that asks for each event in turn, by kind and key.
  abbrev pub consume_each :
      List (EventKind × Text)
      → ReplayCursor V
      → ReplayCursor V × List (Result ReplayError (Option (TaskEvent V)))
  consume_each [] c = (c, [])
  consume_each ((kind, key) ∷ bs) c =
      let (next, result) = consume_event kind key c in
      let (last, results) = consume_each bs next in (last, result ∷ results)

  abbrev pub boundary : TaskEvent V → EventKind × Text
  boundary e = (e.kind, e.key)

  consume_event-own :
      (xs ys : List (TaskEvent V)) (e : TaskEvent V)
      → consume_event e.kind e.key (record { events = xs ++ e ∷ ys; position = length xs })
        ≡ (record { events = xs ++ e ∷ ys; position = length xs + 1 }, ok (some e))
  unfolding consume_event
  consume_event-own xs ys e =
      ground (arith, get_elem?-append xs ys e, (matches_iff e.kind e.key e).1 (refl, refl))

  snoc-append : (xs ys : List (TaskEvent V)) (e : TaskEvent V) → (xs ++ e ∷ []) ++ ys ≡ xs ++ e ∷ ys
  snoc-append [] ys e = refl
  snoc-append (x ∷ xs) ys e = ap (λ r. x ∷ r) (snoc-append xs ys e)

  consume_each-rest :
      (xs ys : List (TaskEvent V))
      → consume_each (map boundary ys) (record { events = xs ++ ys; position = length xs }) ≡ (
        record { events = xs ++ ys; position = length xs + length ys },
        map (λ e. ok (some e)) ys,
      )
  consume_each-rest xs [] = ground arith
  consume_each-rest xs (e ∷ ys) =
      let rest = consume_each-rest (xs ++ e ∷ []) ys in
      ground
        (arith, consume_event-own xs ys e, snoc-append xs ys e, length-append xs (e ∷ []), rest)

  -- A run that meets the boundaries of a recorded history in their order gets each recorded event
  -- back, ends at the end of the history, and passes `ensure_consumed`.
  pub replay-consume_each :
      (events : List (TaskEvent V))
      → (consume_each (map boundary events) (replay events)
          ≡ (record { events = events; position = length events }, map (λ e. ok (some e)) events))
        × (ensure_consumed (consume_each (map boundary events) (replay events)).0 ≡ ok tt)
  unfolding replay ensure_consumed
  replay-consume_each events =
      let all : consume_each (map boundary events) (replay events)
          ≡ (record { events = events; position = length events }, map (λ e. ok (some e)) events) =
        ground (arith, consume_each-rest [] events) in
      (all, ground (arith, all, get_elem?-length events))

  -- `consume_event` hands out an event exactly if it is the next one and was recorded at the kind
  -- and key asked for, and then moves by one. Otherwise it leaves the cursor where it is, and fails
  -- exactly if there is a next event.
  pub consume_event_outcomes :
      (kind : EventKind) (key : Text) (c : ReplayCursor V)
      → ((e : TaskEvent V) × (get_elem? c.events c.position ≡ some e)
          × (e.kind ≡ kind)
          × (e.key ≡ key)
          × (consume_event kind key c
              ≡ (record { events = c.events; position = c.position + 1 }, ok (some e))))
        ⊎ ((e : TaskEvent V) × (get_elem? c.events c.position ≡ some e)
            × (¬ ((e.kind ≡ kind) × (e.key ≡ key)))
            × (consume_event kind key c ≡ (c, err (mismatch e.sequence e.kind e.key kind key)))
            × (ensure_consumed c ≡ err (history_remaining e.sequence e.kind e.key)))
        ⊎ ((consume_event kind key c ≡ (c, ok none)) × (ensure_consumed c ≡ ok tt))
  unfolding consume_event ensure_consumed
  consume_event_outcomes kind key c = elim (Option-cases (get_elem? c.events c.position)) [
    | inl done ↦ inr (inr (ground arith, ground arith))
    | inr (e, here) ↦ elim (Bool-cases (matches kind key e)) [
      | inl same ↦
          let both = (matches_iff kind key e).0 same in inl (e, here, both.0, both.1, ground arith)
      | inr other ↦ inr (
          inl (
            e,
            here,
            λ both. ground (arith, (matches_iff kind key e).1 both, other),
            ground arith,
            ground arith,
          ))
    ]
  ]
