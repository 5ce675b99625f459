-- ===== src/Reliability/CircuitBreaker/States.antt =====
-- The states that a breaker goes through, whatever calls arrive and settle in whatever order.
use res_q_server.Common.{
  Option, ◌≡◌, some, true, arith, ◌≤◌, ◌<◌, ℕ, List, [], false, refl, ◌+◌, leb, ◌∷◌, if-cases, none,
}
use res_q_server.Reliability.CircuitBreaker.{
  Breaker, CircuitState, Event, Options, admit, initial, on_failure, on_success, settle_call, step,
  transition_if_needed, has_waited, run,
}

-- The arrows of the model in the file's header, with what causes each; `reset` closes any breaker.
pub data Switches (options : Options) (b b' : Breaker) : Event → Type 0 where
  same : {e : Event} → b'.state ≡ b.state → Switches options b b' e
  trips :
      {now : ℕ}
      → b.state ≡ CircuitState.closed
      → b'.state ≡ CircuitState.opened
      → options.failure_threshold ≤ b.failure_count + 1
      → Switches options b b' (Event.settles now false)
  probes :
      {now t : ℕ}
      → b.state ≡ CircuitState.opened
      → b'.state ≡ CircuitState.half_open
      → b.last_failure_time ≡ some t
      → t + options.reset_timeout ≤ now
      → Switches options b b' (Event.arrives now)
  recovers :
      {now : ℕ}
      → b.state ≡ CircuitState.half_open
      → b' ≡ initial
      → Switches options b b' (Event.settles now true)
  relapses :
      {now : ℕ}
      → b.state ≡ CircuitState.half_open
      → b'.state ≡ CircuitState.opened
      → b'.last_failure_time ≡ some now
      → Switches options b b' (Event.settles now false)
  restarts : b' ≡ initial → Switches options b b' Event.resets

-- At least as many failures in a row as the threshold, the last one at a known time.
abbrev pub HasFailed : Options → ℕ → Option ℕ → Type 0
HasFailed options count last = (options.failure_threshold ≤ count) × ((t : ℕ) × (last ≡ some t))

-- A CLOSED breaker has seen fewer failures in a row than the threshold.
abbrev pub IsSoundIn : Options → CircuitState → ℕ → Option ℕ → Type 0
IsSoundIn options CircuitState.closed count last = count < options.failure_threshold
IsSoundIn options CircuitState.opened count last = HasFailed options count last
IsSoundIn options CircuitState.half_open count last = HasFailed options count last

abbrev pub IsSound : Options → Breaker → Type 0
IsSound options b = IsSoundIn options b.state b.failure_count b.last_failure_time

abbrev pub breaker : CircuitState → ℕ → Option ℕ → Breaker
breaker s count last = record { state = s; failure_count = count; last_failure_time = last }

module _ (options : Options) where
  on_failure-IsSound :
      (now : ℕ) (s : CircuitState) (count : ℕ) (last : Option ℕ)
      → IsSoundIn options s count last
      → IsSound options (on_failure options now (breaker s count last))
  unfolding on_failure
  on_failure-IsSound now CircuitState.closed count last h =
      if-cases (IsSound options) (leb options.failure_threshold (count + 1))
        (λ reached. (ground arith, (now, refl))) (λ below. ground arith)
  on_failure-IsSound now CircuitState.opened count last (h, _) = (omega (arith, h), (now, refl))
  on_failure-IsSound now CircuitState.half_open count last (h, _) = (omega (arith, h), (now, refl))

  on_success-IsSound :
      (s : CircuitState) (count : ℕ) (last : Option ℕ)
      → 1 ≤ options.failure_threshold
      → IsSoundIn options s count last
      → IsSound options (on_success (breaker s count last))
  unfolding on_success
  on_success-IsSound CircuitState.closed count last least h = omega (arith, least)
  on_success-IsSound CircuitState.opened count last least h = h
  on_success-IsSound CircuitState.half_open count last least h = omega (arith, least)

  admit-IsSound :
      (now : ℕ) (s : CircuitState) (count : ℕ) (last : Option ℕ)
      → IsSoundIn options s count last
      → IsSound options (admit options now (breaker s count last)).1
  unfolding admit transition_if_needed
  admit-IsSound now CircuitState.closed count last h = h
  admit-IsSound now CircuitState.half_open count last h = h
  admit-IsSound now CircuitState.opened count last h =
      if-cases (IsSound options) (has_waited options now last) (λ waited. h) (λ waiting. h)

  step-IsSound :
      (e : Event) (b : Breaker)
      → 1 ≤ options.failure_threshold
      → IsSound options b
      → IsSound options (step options e b)
  unfolding step settle_call
  step-IsSound (Event.arrives now) b least h =
      admit-IsSound now b.state b.failure_count b.last_failure_time h
  step-IsSound (Event.settles now true) b least h =
      on_success-IsSound b.state b.failure_count b.last_failure_time least h
  step-IsSound (Event.settles now false) b least h =
      on_failure-IsSound now b.state b.failure_count b.last_failure_time h
  step-IsSound Event.resets b least h = omega (arith, least)

  -- Whatever calls arrive and settle, in whatever order, a breaker that starts sound, as a new
  -- one is, stays so when the threshold is at least 1. CLOSED, it has counted fewer failures than
  -- the threshold; OPEN or HALF_OPEN, it has counted at least as many, and knows when the last
  -- one was.
  pub run-IsSound :
      (es : List Event) (b : Breaker)
      → 1 ≤ options.failure_threshold
      → IsSound options b
      → IsSound options (run options es b)
  unfolding run
  run-IsSound [] b least h = h
  run-IsSound (e ∷ es) b least h =
      run-IsSound es (step options e b) least (step-IsSound e b least h)

  admit-Switches :
      (now : ℕ) (s : CircuitState) (count : ℕ) (last : Option ℕ)
      → let b = breaker s count last in
        Switches options b (admit options now b).1 (Event.arrives now)
  unfolding admit transition_if_needed
  admit-Switches now CircuitState.closed count last = Switches.same refl
  admit-Switches now CircuitState.half_open count last = Switches.same refl
  admit-Switches now CircuitState.opened count none = Switches.same refl
  admit-Switches now CircuitState.opened count (some t) =
      let b = breaker CircuitState.opened count (some t) in
      if-cases (λ b'. Switches options b b' (Event.arrives now))
        (leb (t + options.reset_timeout) now)
        (λ waited. Switches.probes refl refl refl (ground arith)) (λ waiting. Switches.same refl)

  on_success-Switches :
      (now : ℕ) (s : CircuitState) (count : ℕ) (last : Option ℕ)
      → let b = breaker s count last in Switches options b (on_success b) (Event.settles now true)
  unfolding on_success
  on_success-Switches now CircuitState.closed count last = Switches.same refl
  on_success-Switches now CircuitState.opened count last = Switches.same refl
  on_success-Switches now CircuitState.half_open count last = Switches.recovers refl refl

  on_failure-Switches :
      (now : ℕ) (s : CircuitState) (count : ℕ) (last : Option ℕ)
      → let b = breaker s count last in
        Switches options b (on_failure options now b) (Event.settles now false)
  unfolding on_failure
  on_failure-Switches now CircuitState.opened count last = Switches.same refl
  on_failure-Switches now CircuitState.half_open count last = Switches.relapses refl refl refl
  on_failure-Switches now CircuitState.closed count last =
      let b = breaker CircuitState.closed count last in
      if-cases (λ b'. Switches options b b' (Event.settles now false))
        (leb options.failure_threshold (count + 1))
        (λ reached. Switches.trips refl refl (ground arith)) (λ below. Switches.same refl)

  -- A step changes the state of a breaker only along an arrow of the diagram, for the reason
  -- named there: CLOSED to OPEN when a failure reaches the threshold, OPEN to HALF_OPEN when a
  -- call arrives after the waiting time, HALF_OPEN to CLOSED at a success and back to OPEN at a
  -- failure, and any state to CLOSED at a reset.
  pub step-Switches : (e : Event) (b : Breaker) → Switches options b (step options e b) e
  unfolding step settle_call
  step-Switches (Event.arrives now) b =
      admit-Switches now b.state b.failure_count b.last_failure_time
  step-Switches (Event.settles now true) b =
      on_success-Switches now b.state b.failure_count b.last_failure_time
  step-Switches (Event.settles now false) b =
      on_failure-Switches now b.state b.failure_count b.last_failure_time
  step-Switches Event.resets b = Switches.restarts refl
