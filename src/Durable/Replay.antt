-- ===== src/Durable/Replay.antt =====
-- The replay cursor over a recorded history.
use tysel.Base.{
  ℕ, suc, ◌+◌, ◌-◌, Text, text_eq, Option, none, some, List, [], ◌∷◌, Bool, true, false, ◌&&◌, ltb,
  if◌then◌else◌, length, drop, get_elem?, Result, ok, err,
}
use tysel.Durable.{EventKind, TaskEvent, step, effect, sleep, signal, retry, now, random}

pub record ReplayCursor (V : Type 0) : Type 0 where
  pub events : List (TaskEvent V)
  pub position : ℕ

pub data ReplayError : Type 0 where
  mismatch :
      (sequence : ℕ)
      → (expected_kind : EventKind) → (expected_key : Text) → (actual_kind : EventKind)
      → (actual_key : Text) → ReplayError
  history_remaining : (sequence : ℕ) → EventKind → Text → ReplayError

unfoldable pub kind_eq : EventKind → EventKind → Bool
kind_eq step step = true
kind_eq effect effect = true
kind_eq sleep sleep = true
kind_eq signal signal = true
kind_eq retry retry = true
kind_eq now now = true
kind_eq random random = true
kind_eq _ _ = false

module _ {V : Type 0} where
  -- `History::replay`
  unfoldable pub replay : List (TaskEvent V) → ReplayCursor V
  replay events = record { events = events; position = 0 }

  -- `event.kind == kind && event.key == key`
  unfoldable pub matches : EventKind → Text → TaskEvent V → Bool
  matches kind key e = kind_eq e.kind kind && text_eq e.key key

  abbrev pub consume_at :
      EventKind
      → Text
      → ReplayCursor V
      → Option (TaskEvent V)
      → ReplayCursor V × Result ReplayError (Option (TaskEvent V))
  consume_at kind key c none = (c, ok none)
  consume_at kind key c (some e) =
      if matches kind key e
      then (record c { position = c.position + 1 }, ok (some e))
      else (c, err (mismatch e.sequence e.kind e.key kind key))

  unfoldable pub consume_event :
      EventKind → Text → ReplayCursor V → ReplayCursor V × Result ReplayError (Option (TaskEvent V))
  consume_event kind key c = consume_at kind key c (get_elem? c.events c.position)

  abbrev pub payload_of : Result ReplayError (Option (TaskEvent V)) → Result ReplayError (Option V)
  payload_of (ok (some e)) = ok (some e.payload)
  payload_of (ok none) = ok none
  payload_of (err e) = err e

  unfoldable pub consume :
      EventKind → Text → ReplayCursor V → ReplayCursor V × Result ReplayError (Option V)
  consume kind key c = let (next, found) = consume_event kind key c in (next, payload_of found)

  -- `iter().position(test)`
  unfoldable pub position_of : (TaskEvent V → Bool) → List (TaskEvent V) → Option ℕ
  position_of test [] = none
  position_of test (e ∷ es) =
      let rest = position_of test es in
      if test e then some 0 else (elim rest [ none ↦ none | some i ↦ some (suc i) ])

  abbrev pub advance_to : ReplayCursor V → Option ℕ → ReplayCursor V × Option (TaskEvent V)
  advance_to c none = (c, none)
  advance_to c (some offset) = (
    record c { position = c.position + offset + 1 },
    get_elem? c.events (c.position + offset + 1 - 1),
  )

  -- `none` is the panic of the slice `self.events[self.position..]` past the end.
  unfoldable pub consume_through :
      EventKind → Text → ReplayCursor V → Option (ReplayCursor V × Option (TaskEvent V))
  consume_through kind key c =
      if ltb (length c.events) c.position
      then none
      else some (advance_to c (position_of (matches kind key) (drop c.position c.events)))

  abbrev pub remaining : Option (TaskEvent V) → Result ReplayError (Unit {0})
  remaining none = ok tt
  remaining (some e) = err (history_remaining e.sequence e.kind e.key)

  unfoldable pub ensure_consumed : ReplayCursor V → Result ReplayError (Unit {0})
  ensure_consumed c = remaining (get_elem? c.events c.position)
