-- ===== src/Durable/Through.antt =====
-- `consume_through`, and sequences of calls of the cursor.
use tysel.Base.{
  ℕ, zero, suc, ◌+◌, ◌-◌, ◌≤◌, ◌<◌, ◌≡◌, refl, Text, Option, none, some, List, [], ◌∷◌, Bool, true,
  not, ◌&&◌, length, take, drop, get_elem?, arith, Bool-cases, Option-cases, inl, inr, ◌⊎◌, ap, sym,
  ◌∙◌,
}
use tysel.Durable.{EventKind, TaskEvent}
use tysel.Durable.Replay.{
  ReplayCursor, replay, matches, consume_event, position_of, consume_through,
}
use tysel.Durable.Replays.{matches_iff, consume_event_outcomes}

module _ {V : Type 0} where
  -- No event of the list is one that the test accepts.
  abbrev pub none_of : (TaskEvent V → Bool) → List (TaskEvent V) → Bool
  none_of test [] = true
  none_of test (e ∷ es) = not (test e) && none_of test es

  position_of-none :
      (test : TaskEvent V → Bool) (es : List (TaskEvent V))
      → position_of test es ≡ none
      → none_of test es ≡ true
  unfolding position_of
  position_of-none test [] h = refl
  position_of-none test (e ∷ es) h = elim (Option-cases (position_of test es)) [
    | inl absent ↦ ground (arith, position_of-none test es)
    | inr (_, here) ↦ ground arith
  ]

  position_of-some :
      (test : TaskEvent V → Bool) (es : List (TaskEvent V)) (i : ℕ)
      → position_of test es ≡ some i
      → (e : TaskEvent V) × (get_elem? es i ≡ some e)
        × (test e ≡ true)
        × (none_of test (take i es) ≡ true)
        × (i < length es)
  unfolding position_of
  position_of-some test [] i h = ground arith
  position_of-some test (e ∷ es) i h = elim (Bool-cases (test e)) [
    | inl here ↦ (e, ground arith, here, ground arith, ground arith)
    | inr later ↦ elim (Option-cases (position_of test es)) [
      | inl absent ↦ ground arith
      | inr (j, there) ↦
          let (x, at, good, before, short) = position_of-some test es j there in
          (x, ground arith, good, ground arith, ground arith)
    ]
  ]

  drop-get_elem? :
      (n i : ℕ) (es : List (TaskEvent V)) → get_elem? (drop n es) i ≡ get_elem? es (n + i)
  drop-get_elem? zero i es = ground arith
  drop-get_elem? (suc n) i [] = ground arith
  drop-get_elem? (suc n) i (e ∷ es) = ground (arith, drop-get_elem? n i es)

  length-drop : (n : ℕ) (es : List (TaskEvent V)) → length (drop n es) ≡ length es - n
  length-drop zero es = ground arith
  length-drop (suc n) [] = ground arith
  length-drop (suc n) (e ∷ es) = ground (arith, length-drop n es)

  -- What `consume_through` did at a cursor inside its history: it went just past the first event
  -- from the cursor on that was recorded at this kind and key, or stayed where there is none.
  pub record IsThrough (kind : EventKind) (key : Text) (c d : ReplayCursor V)
      (found : Option (TaskEvent V)) : Type 0 where
    pub same_events : d.events ≡ c.events
    pub inside : d.position ≤ length c.events
    pub first :
        ((found ≡ none)
          × (d.position ≡ c.position)
          × (none_of (matches kind key) (drop c.position c.events) ≡ true))
        ⊎ ((e : TaskEvent V) × (i : ℕ) × (found ≡ some e)
            × (d.position ≡ c.position + i + 1)
            × (get_elem? c.events (c.position + i) ≡ some e)
            × (e.kind ≡ kind)
            × (e.key ≡ key)
            × (none_of (matches kind key) (take i (drop c.position c.events)) ≡ true))

  -- At a cursor inside its history the slice of `consume_through` does not panic, and the method
  -- moves past the first event recorded at this kind and key, or, if there is none, not at all.
  pub consume_through-IsThrough :
      (kind : EventKind) (key : Text) (c : ReplayCursor V)
      → c.position ≤ length c.events
      → (d : ReplayCursor V) × (found : Option (TaskEvent V)) × (consume_through kind key c
          ≡ some (d, found))
        × IsThrough kind key c d found
  unfolding consume_through
  consume_through-IsThrough kind key c h =
      elim (Option-cases (position_of (matches kind key) (drop c.position c.events))) [
        | inl absent ↦ (
          c,
          none,
          ground arith,
          record {
            same_events = refl;
            inside = h;
            first =
                inl (
                  refl,
                  refl,
                  position_of-none (matches kind key) (drop c.position c.events) absent,
                );
          },
        )
        | inr (i, there) ↦
            let (e, at, good, before, short) =
              position_of-some (matches kind key) (drop c.position c.events) i there in
            let both = (matches_iff kind key e).0 good in
            let place = sym (drop-get_elem? c.position i c.events) ∙ at in
            (
              record { events = c.events; position = c.position + i + 1 },
              some e,
              ground arith,
              record {
                same_events = refl;
                inside = omega (arith, short, length-drop c.position c.events, h);
                first = inr (e, i, refl, refl, place, both.0, both.1, before);
              },
            )
      ]

pub data CursorCall : Type 0 where
  consumes consumes_through : EventKind → Text → CursorCall

module _ {V : Type 0} where
  abbrev pub call_on : CursorCall → ReplayCursor V → Option (ReplayCursor V)
  call_on (consumes kind key) c = some (consume_event kind key c).0
  call_on (consumes_through kind key) c = elim (consume_through kind key c) [
    | none ↦ none
    | some r ↦ some r.0
  ]

  abbrev pub calls_on : List CursorCall → Option (ReplayCursor V) → Option (ReplayCursor V)
  calls_on cs none = none
  calls_on [] (some c) = some c
  calls_on (x ∷ cs) (some c) = calls_on cs (call_on x c)

  get_elem?-lt :
      (es : List (TaskEvent V)) (i : ℕ) (e : TaskEvent V) → get_elem? es i ≡ some e → i < length es
  get_elem?-lt [] i e h = ground arith
  get_elem?-lt (x ∷ es) zero e h = omega arith
  get_elem?-lt (x ∷ es) (suc i) e h = omega (arith, get_elem?-lt es i e h)

  call_on-inside :
      (x : CursorCall) (c : ReplayCursor V)
      → c.position ≤ length c.events
      → (d : ReplayCursor V) × (call_on x c ≡ some d)
        × (d.events ≡ c.events)
        × (d.position ≤ length c.events)
  call_on-inside (consumes kind key) c h = elim (consume_event_outcomes kind key c) [
    | inl (e, here, _, _, done) ↦ (
      record { events = c.events; position = c.position + 1 },
      ground (arith, done),
      refl,
      omega (arith, get_elem?-lt c.events c.position e here),
    )
    | inr (inl (_, _, _, done, _)) ↦ (c, ground (arith, done), refl, h)
    | inr (inr (done, _)) ↦ (c, ground (arith, done), refl, h)
  ]
  call_on-inside (consumes_through kind key) c h =
      let (d, found, done, through) = consume_through-IsThrough kind key c h in
      (d, ground (arith, done), through.same_events, through.inside)

  calls_on-inside :
      (cs : List CursorCall) (c : ReplayCursor V)
      → c.position ≤ length c.events
      → (d : ReplayCursor V) × (calls_on cs (some c) ≡ some d)
        × (d.events ≡ c.events)
        × (d.position ≤ length c.events)
  calls_on-inside [] c h = (c, refl, refl, h)
  calls_on-inside (x ∷ cs) c h =
      let (d, done, events, inside) = call_on-inside x c h in
      let (last, rest, same, within) = calls_on-inside cs d (ground (arith, events, inside)) in
      (last, ap (calls_on cs) done ∙ rest, same ∙ events, ground (arith, events, within))

  -- No sequence of `consume_event` and `consume_through` calls from the start of a history panics;
  -- the cursor stays inside the history, which does not change.
  pub replay_never_panics :
      (cs : List CursorCall) (events : List (TaskEvent V))
      → (d : ReplayCursor V) × (calls_on cs (some (replay events)) ≡ some d)
        × (d.events ≡ events)
        × (d.position ≤ length events)
  unfolding replay
  replay_never_panics cs events =
      calls_on-inside cs (record { events = events; position = 0 }) (omega arith)
