-- ===== src/Reliability/CircuitBreaker.antt =====
-- src/reliability/circuit-breaker.ts: one breaker, and the calls that it lets through. `Date.now()`
-- is an argument. `execute` awaits `fn` between two pieces of code that nothing interrupts, so it
-- is two steps: `admit` when a call arrives, and `settle_call` when its promise settles; the calls
-- of several clients interleave at these steps.
pub mod States
pub mod Opening
use res_q_server.Common.{
  Bool, List, Option, [], false, if◌then◌else◌, leb, none, some, true, ℕ, ◌+◌, ◌∷◌, not,
}

pub data CircuitState : Type 0 where
  closed opened half_open : CircuitState

pub record Options : Type 0 where
  pub failure_threshold : ℕ
  pub reset_timeout : ℕ

pub record Breaker : Type 0 where
  pub state : CircuitState
  pub failure_count : ℕ
  pub last_failure_time : Option ℕ

abbrev pub initial : Breaker
initial = record { state = CircuitState.closed; failure_count = 0; last_failure_time = none }

-- `Date.now() - lastFailureTime >= resetTimeout`
abbrev pub has_waited : Options → (now : ℕ) → Option ℕ → Bool
has_waited options now none = false
has_waited options now (some t) = leb (t + options.reset_timeout) now

unfoldable pub transition_if_needed : Options → (now : ℕ) → Breaker → Breaker
transition_if_needed options now b = elim b.state [
  | CircuitState.opened ↦
      if has_waited options now b.last_failure_time
      then record b { state = CircuitState.half_open }
      else b
  | CircuitState.closed ↦ b
  | CircuitState.half_open ↦ b
]

unfoldable pub on_success : Breaker → Breaker
on_success b = elim b.state [
  | CircuitState.half_open ↦ initial
  | CircuitState.closed ↦ record b { failure_count = 0 }
  | CircuitState.opened ↦ b
]

unfoldable pub on_failure : Options → (now : ℕ) → Breaker → Breaker
on_failure options now b =
    let counted : Breaker = record b {
      failure_count = b.failure_count + 1;
      last_failure_time = some now;
    } in
    elim b.state [
      | CircuitState.half_open ↦ record counted { state = CircuitState.opened }
      | CircuitState.closed ↦
          if leb options.failure_threshold counted.failure_count
          then record counted { state = CircuitState.opened }
          else counted
      | CircuitState.opened ↦ counted
    ]

abbrev pub reset : Breaker → Breaker
reset b = initial

abbrev pub is_opened : CircuitState → Bool
is_opened CircuitState.opened = true
is_opened CircuitState.closed = false
is_opened CircuitState.half_open = false

-- The first piece of `execute`: whether `fn` is called, or CircuitOpenError is thrown.
unfoldable pub admit : Options → (now : ℕ) → Breaker → Bool × Breaker
unfolding transition_if_needed
admit options now b = let b' = transition_if_needed options now b in (not (is_opened b'.state), b')

-- The second piece: `fn` resolved or rejected.
unfoldable pub settle_call : Options → (now : ℕ) → (resolved : Bool) → Breaker → Breaker
unfolding on_success on_failure
settle_call options now true b = on_success b
settle_call options now false b = on_failure options now b

pub data Event : Type 0 where
  arrives : (now : ℕ) → Event
  settles : (now : ℕ) (resolved : Bool) → Event
  resets : Event

unfoldable pub step : Options → Event → Breaker → Breaker
unfolding admit settle_call
step options (Event.arrives now) b = (admit options now b).1
step options (Event.settles now resolved) b = settle_call options now resolved b
step options Event.resets b = reset b

unfoldable pub run : Options → List Event → Breaker → Breaker
unfolding step
run options [] b = b
run options (e ∷ es) b = run options es (step options e b)
