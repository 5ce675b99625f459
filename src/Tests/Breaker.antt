-- ===== src/Tests/Breaker.antt =====
-- A breaker that opens after three failures, and waits for 1000 ms.
use res_q_server.Common.{some, refl, ◌≡◌, List, [], arith, false, ℕ, ◌∷◌}
use res_q_server.Reliability.CircuitBreaker.{Breaker, CircuitState, Event, Options, initial, run}
use res_q_server.Reliability.CircuitBreaker.States.{IsSound, breaker, run-IsSound}

abbrev options : Options
options = record { failure_threshold = 3; reset_timeout = 1000 }

abbrev night : List Event
night =
    Event.arrives 0
    ∷ Event.settles 10 false
    ∷ Event.settles 20 false
    ∷ Event.settles 30 false
    ∷ Event.arrives 1500
    ∷ []

abbrev tripped : Breaker
tripped = breaker CircuitState.opened 3 (some 30)

abbrev probing : Breaker
probing = breaker CircuitState.half_open 3 (some 30)

night_runs : run options night initial ≡ probing
unfolding run
night_runs = refl

run-IsSound_example : IsSound options (run options night initial)
run-IsSound_example = run-IsSound options night initial (omega arith) (omega arith)

abbrev three : List ℕ
three = 10 ∷ 20 ∷ 30 ∷ []
