-- ===== src/Decision/Allocation/Unranked.antt =====
-- At a speed that is not positive every ETA is infinite, the comparator returns NaN for every pair,
-- and the ranking leaves the candidates as they come.
use res_q_server.Decision.Allocation.{
  AllocationInput, Candidate, Order, compare_evaluations, evaluate_candidate, insert_ranked,
  is_feasible, rank_candidates,
}
use res_q_server.Common.{
  Bool-cases, List, [], arith, filter, inl, inr, map, refl, true, ℕ, ◌∷◌, ◌≡◌,
}
use res_q_server.Db.Rows.{Place}

module _ (distance : Place → Place → ℕ) (input : AllocationInput)
    (stuck : input.average_speed.num ≡ 0) where
  same_pair :
      (a b : Candidate)
      → is_feasible (evaluate_candidate distance input a) ≡ true
      → is_feasible (evaluate_candidate distance input b) ≡ true
      → compare_evaluations
          (evaluate_candidate distance input a)
          (evaluate_candidate distance input b)
        ≡ Order.same
  unfolding evaluate_candidate compare_evaluations
  same_pair a b h k = ground arith

  same_first :
      (c : Candidate) (rs : List Candidate)
      → is_feasible (evaluate_candidate distance input c) ≡ true
      → let es = filter is_feasible (map (evaluate_candidate distance input) rs) in
        insert_ranked (evaluate_candidate distance input c) es
        ≡ evaluate_candidate distance input c ∷ es
  unfolding insert_ranked
  same_first c [] h = refl
  same_first c (r ∷ rs) h = elim (Bool-cases (is_feasible (evaluate_candidate distance input r))) [
    | inl feasible ↦ rw feasible (ground (arith, same_pair c r h feasible))
    | inr rejected ↦ rw rejected (same_first c rs h)
  ]

  -- At a speed that is not positive, the feasible candidates keep the order in which they were
  -- listed: neither the capacity nor the id is looked at.
  pub rank_candidates_unranked :
      (rs : List Candidate)
      → rank_candidates (filter is_feasible (map (evaluate_candidate distance input) rs))
        ≡ filter is_feasible (map (evaluate_candidate distance input) rs)
  unfolding rank_candidates
  rank_candidates_unranked [] = refl
  rank_candidates_unranked (r ∷ rs) =
      elim (Bool-cases (is_feasible (evaluate_candidate distance input r))) [
        | inl feasible ↦ rw (feasible, rank_candidates_unranked rs) (same_first r rs feasible)
        | inr rejected ↦ rw rejected (rank_candidates_unranked rs)
      ]
