-- ===== src/Reliability/CircuitBreaker/Opening.antt =====
-- Which calls a breaker lets through, when it opens, and how long it stays open.
use mathlib.Core.Path.{subst, sym}
use res_q_server.Common.{
  Option, ◌≡◌, ◌↔◌, some, true, arith, ◌≤◌, ◌<◌, ℕ, List, [], false, if-cases, leb, length, refl,
  ◌+◌, ◌∷◌, none, ◌∙◌,
}
use res_q_server.Reliability.CircuitBreaker.{
  CircuitState, Event, Options, admit, on_failure, run, settle_call, step, transition_if_needed,
  Breaker, initial, on_success,
}
use res_q_server.Reliability.CircuitBreaker.States.{IsSound, IsSoundIn, breaker}

module _ (options : Options) where
  admit-fields :
      (now : ℕ) (s : CircuitState) (count : ℕ) (last : Option ℕ)
      → IsSoundIn options s count last
      → ((admit options now (breaker s count last)).0 ≡ false) ↔ (
          (s ≡ CircuitState.opened)
          × ((t : ℕ) × (last ≡ some t) × (now < t + options.reset_timeout)))
  unfolding admit transition_if_needed
  admit-fields now CircuitState.closed count last h = (λ e. absurd cc, λ (e, _). absurd cc)
  admit-fields now CircuitState.half_open count last h = (λ e. absurd cc, λ (e, _). absurd cc)
  admit-fields now CircuitState.opened count none (_, (t, e)) = absurd cc
  admit-fields now CircuitState.opened count (some t) h =
      (λ e. (refl, (t, refl, ground arith)), λ (_, (u, e, l)). ground arith)

  -- A sound breaker refuses a call, without calling the operation, if and only if it is OPEN and
  -- the waiting time since the last failure is not over.
  pub admit_refused_iff :
      (now : ℕ) (b : Breaker)
      → IsSound options b
      → ((admit options now b).0 ≡ false) ↔ (
          (b.state ≡ CircuitState.opened)
          × ((t : ℕ) × (b.last_failure_time ≡ some t) × (now < t + options.reset_timeout)))
  admit_refused_iff now b h = admit-fields now b.state b.failure_count b.last_failure_time h

  abbrev pub failures : List ℕ → List Event
  failures [] = []
  failures (t ∷ ts) = Event.settles t false ∷ failures ts

  failures-opened :
      (ts : List ℕ) (count : ℕ) (last : Option ℕ)
      → (run options (failures ts) (breaker CircuitState.opened count last)).state
        ≡ CircuitState.opened
  unfolding run step settle_call on_failure
  failures-opened [] count last = refl
  failures-opened (t ∷ ts) count last = failures-opened ts (count + 1) (some t)

  failures-closed :
      (ts : List ℕ) (count : ℕ) (last : Option ℕ)
      → count < options.failure_threshold
      → ((run options (failures ts) (breaker CircuitState.closed count last)).state
          ≡ CircuitState.opened)
        ↔ (options.failure_threshold ≤ count + length ts)
  unfolding run step settle_call on_failure
  failures-closed [] count last h = (λ e. absurd cc, λ l. absurd (omega (arith, h, l)))
  failures-closed (t ∷ ts) count last h =
      if-cases
        (λ b.
          ((run options (failures ts) b).state ≡ CircuitState.opened)
          ↔ (options.failure_threshold ≤ count + length (t ∷ ts)))
        (leb options.failure_threshold (count + 1))
        (λ reached. (λ e. ground arith, λ l. failures-opened ts (count + 1) (some t)))
        (λ below.
          let (there, back) = failures-closed ts (count + 1) (some t) (ground arith) in
          (λ e. omega (arith, there e), λ l. back (omega (arith, l))))

  -- A new breaker whose threshold is at least 1 is OPEN after calls that all failed if and only
  -- if they are at least as many as the threshold.
  pub failures-opened_iff :
      (ts : List ℕ)
      → 1 ≤ options.failure_threshold
      → ((run options (failures ts) initial).state ≡ CircuitState.opened)
        ↔ (options.failure_threshold ≤ length ts)
  failures-opened_iff ts least = ground (arith, failures-closed ts 0 none least)

  abbrev pub arrivals : List ℕ → List Event
  arrivals [] = []
  arrivals (t ∷ ts) = Event.arrives t ∷ arrivals ts

  arrivals-half_open :
      (ts : List ℕ) (count : ℕ) (last : Option ℕ)
      → run options (arrivals ts) (breaker CircuitState.half_open count last)
        ≡ breaker CircuitState.half_open count last
  unfolding run step admit transition_if_needed
  arrivals-half_open [] count last = refl
  arrivals-half_open (t ∷ ts) count last = arrivals-half_open ts count last

  admit-half_open :
      (now count : ℕ) (last : Option ℕ)
      → (admit options now (breaker CircuitState.half_open count last)).0 ≡ true
  unfolding admit transition_if_needed
  admit-half_open now count last = refl

  -- A HALF_OPEN breaker lets every call through that arrives while none settles, not one test
  -- call only, and stays as it is meanwhile.
  pub half_open_admits_all :
      (b : Breaker) (ts : List ℕ) (now : ℕ)
      → b.state ≡ CircuitState.half_open
      → (run options (arrivals ts) b ≡ b)
        × ((admit options now (run options (arrivals ts) b)).0 ≡ true)
  half_open_admits_all b ts now e =
      let same : breaker CircuitState.half_open b.failure_count b.last_failure_time ≡ b = cc in
      let kept : run options (arrivals ts) b ≡ b =
        subst (λ x. run options (arrivals ts) x ≡ x) same
          (arrivals-half_open ts b.failure_count b.last_failure_time) in
      (
        kept,
        subst (λ x. (admit options now x).0 ≡ true) (same ∙ sym kept)
            (admit-half_open now b.failure_count b.last_failure_time),
      )

  -- A call that was let through earlier and fails when the breaker is OPEN already starts the
  -- waiting time again: every call is refused until it is over once more.
  pub late_failure_waits_again :
      (t now : ℕ) (b : Breaker)
      → b.state ≡ CircuitState.opened
      → now < t + options.reset_timeout
      → (admit options now (settle_call options t false b)).0 ≡ false
  unfolding admit transition_if_needed settle_call on_failure
  late_failure_waits_again t now b e l = ground arith

  -- Once the waiting time since the last failure is over, an OPEN breaker lets the next call
  -- through; if that call succeeds the breaker is as new, and if it fails the breaker is OPEN,
  -- with the time of that failure as the last one.
  pub recovery :
      (t now later count : ℕ)
      → t + options.reset_timeout ≤ now
      → let probe = admit options now (breaker CircuitState.opened count (some t)) in
        (probe.0 ≡ true)
        × (settle_call options later true probe.1 ≡ initial)
        × (settle_call options later false probe.1
            ≡ breaker CircuitState.opened (count + 1) (some later))
  unfolding admit transition_if_needed settle_call on_success on_failure
  recovery t now later count l = ground arith
