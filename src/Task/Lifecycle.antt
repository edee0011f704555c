-- ===== src/Task/Lifecycle.antt =====
-- The lifecycle graph of a task: chains of transitions, and where they can lead.
use tysel.Base.{ℕ, ◌+◌, ◌≡◌, ◌≢◌, refl, Bool, true, false, if◌then◌else◌, arith}
use tysel.Task.{
  TaskState, created, queued, running, completed, canceled, is_terminal, can_transition_to,
}

-- One accepted transition after another.
pub data Steps : TaskState → TaskState → Type 0 where
  here : {s : TaskState} → Steps s s
  more : {s t u : TaskState} → can_transition_to s t ≡ true → Steps t u → Steps s u

pub Steps-trans : {s t u : TaskState} → Steps s t → Steps t u → Steps s u
Steps-trans here v = v
Steps-trans (more e w) v = more e (Steps-trans w v)

abbrev pub is_start : TaskState → TaskState → Bool
is_start queued running = true
is_start _ _ = false

-- How often a chain of transitions takes the task from the queue to run.
abbrev pub starts : {s t : TaskState} → Steps s t → ℕ
starts here = 0
starts (more {s = s} {t = t} e w) = (if is_start s t then 1 else 0) + starts w

pub starts_trans :
    {s t u : TaskState} (v : Steps s t) (w : Steps t u)
    → starts (Steps-trans v w) ≡ starts v + starts w
unfolding Steps-trans
starts_trans here w = omega arith
starts_trans (more e v) w = omega (arith, starts_trans v w)

pub terminal_stuck : (s t : TaskState) → is_terminal s ≡ true → can_transition_to s t ≡ false
unfolding is_terminal can_transition_to
terminal_stuck created t h = cc
terminal_stuck _ t h = ground arith

Steps-terminal : {s t : TaskState} → Steps s t → is_terminal s ≡ true → s ≡ t
Steps-terminal here h = refl
Steps-terminal {s} (more {t = t} e _) h = cc (terminal_stuck s t h, e)

pub cancel_step : (s : TaskState) → is_terminal s ≡ false → can_transition_to s canceled ≡ true
unfolding is_terminal can_transition_to
cancel_step s h = ground arith

completed_from_running : (s : TaskState) → can_transition_to s completed ≡ true → s ≡ running
unfolding can_transition_to
completed_from_running s h = ground arith

-- A state is terminal exactly if no state may follow it: a terminal state has no successor, and
-- every other state may be canceled.
pub terminal_iff_no_successor :
    (s : TaskState)
    → (is_terminal s ≡ true → (t : TaskState) → can_transition_to s t ≡ false)
      × (is_terminal s ≡ false → can_transition_to s canceled ≡ true)
terminal_iff_no_successor s = (λ h t. terminal_stuck s t h, cancel_step s)

-- The state that the last transition of a chain leaves, where `before` stands ahead of the chain.
abbrev pub state_before : TaskState → {s t : TaskState} → Steps s t → TaskState
state_before before here = before
state_before before (more {s = s} e w) = state_before s w

completed_after_running :
    {t : TaskState} (s : TaskState) (w : Steps t completed)
    → can_transition_to s t ≡ true
    → state_before s w ≡ running
completed_after_running s here e = completed_from_running s e
completed_after_running {t} s (more e w) _ = completed_after_running t w e

-- Every chain of accepted transitions from another state to `Completed` makes its last transition
-- from `Running`: in no chain is a task completed from any other state.
pub completed_was_running :
    {s : TaskState} (w : Steps s completed) → s ≢ completed → state_before s w ≡ running
completed_was_running here h = absurd (h refl)
completed_was_running {s} (more e w) h = completed_after_running s w e
