-- ===== src/RateLimit/Windows.antt =====
-- The requests of one window of a counter.
use res_q_server.Common.{
  List, [], arith, count_if, length, ltb, min, true, ℕ, ◌+◌, ◌-◌, ◌∷◌, ◌≡◌, not,
}
use res_q_server.RateLimit.{Reply, has_passed, is_limited, limit_request, LimitVerdict}

-- The verdicts on the requests of one window of a counter, oldest first: INCR replies one after the
-- other `from + 1`, `from + 2`, and so on, with any TTL.
abbrev pub window_verdicts : (max_requests window_ms from : ℕ) → (ttls : List ℕ) → List LimitVerdict
window_verdicts max_requests window_ms from [] = []
window_verdicts max_requests window_ms from (ttl ∷ ttls) =
    limit_request max_requests window_ms true (Reply.replied (from + 1) ttl) true
    ∷ window_verdicts max_requests window_ms (from + 1) ttls

verdict_passed :
    (max_requests window_ms current ttl : ℕ)
    → has_passed (limit_request max_requests window_ms true (Reply.replied current ttl) true)
      ≡ not (ltb max_requests current)
unfolding limit_request
verdict_passed max_requests window_ms current ttl = ground arith

verdict_limited :
    (max_requests window_ms current ttl : ℕ)
    → is_limited (limit_request max_requests window_ms true (Reply.replied current ttl) true)
      ≡ ltb max_requests current
unfolding limit_request
verdict_limited max_requests window_ms current ttl = ground arith

passes_from :
    (max_requests window_ms from : ℕ) (ttls : List ℕ)
    → (count_if has_passed (window_verdicts max_requests window_ms from ttls)
        ≡ min (length ttls) (max_requests - from))
      × (count_if is_limited (window_verdicts max_requests window_ms from ttls)
          ≡ length ttls - (max_requests - from))
passes_from max_requests window_ms from [] = (omega arith, omega arith)
passes_from max_requests window_ms from (ttl ∷ ttls) =
    let rest = passes_from max_requests window_ms (from + 1) ttls in
    (
      rw (verdict_passed max_requests window_ms (from + 1) ttl) (ground (arith, rest.0)),
      rw (verdict_limited max_requests window_ms (from + 1) ttl) (ground (arith, rest.1)),
    )

-- Of the requests of one window, for which Redis is up and counts 1, 2, 3 and so on, exactly
-- `max` pass, or all if they are fewer, and all the others get 429.
pub window_verdicts-min :
    (max_requests window_ms : ℕ) (ttls : List ℕ)
    → (count_if has_passed (window_verdicts max_requests window_ms 0 ttls)
        ≡ min (length ttls) max_requests)
      × (count_if is_limited (window_verdicts max_requests window_ms 0 ttls)
          ≡ length ttls - max_requests)
window_verdicts-min max_requests window_ms ttls =
    let counts = passes_from max_requests window_ms 0 ttls in
    (omega (arith, counts.0), omega (arith, counts.1))
