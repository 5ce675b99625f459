-- ===== src/Decision/Allocation/Choice.antt =====
-- Which resource the engine recommends.
use mathlib.Core.Path.{subst}
use res_q_server.Common.{
  All, Any, List, [], arith, find, inl, inr, nat_eq, some, text_eq, true, ℕ, ◌*◌, ◌-◌, ◌<◌, ◌==◌,
  ◌↔◌, ◌∷◌, ◌≡◌, ◌≢◌, ◌≤◌, ◌⊎◌, All-filter, All-map, All-mono, Any-All, Any-filter, Any-map,
  Any-witness, filter, map, refl, sym, Option, ap, none,
}
use res_q_server.Decision.Allocation.{
  AllocationInput, Candidate, compare_evaluations, evaluate_candidate, is_feasible, Evaluation,
  rank_candidates, recommend_from, recommend_resource, select_best,
}
use res_q_server.Db.Rows.{
  Place, ResourceStatus, assignment_status_eq, incident_status_eq, resource_status_eq, role_eq,
}
use res_q_server.Decision.Allocation.Sorting.{
  NotAfter, Any-rank_candidates, rank_candidates-top, All-rank_candidates,
}
use res_q_server.Decision.Priority.{round_div}
use res_q_server.Decision.Matching.{is_type_match}
use res_q_server.Db.Tables.{assignment_row, incident_row, outbox_row, resource_row, user_row}

-- The rules of feasibility.
pub record IsSuitable (input : AllocationInput) (c : Candidate) : Type 0 where
  pub is_available : c.status ≡ ResourceStatus.available
  pub matches : is_type_match c.type input.resource_requirements ≡ true
  pub carries : input.affected_people ≤ c.capacity

-- No two candidates share an id, the primary key.
abbrev pub Distinct : List Candidate → Type 0
Distinct [] = Unit
Distinct (r ∷ rs) = All (λ o. r.id ≢ o.id) rs × Distinct rs

find-listed :
    (id : ℕ) (c : Candidate) (rs : List Candidate)
    → c.id ≡ id
    → Distinct rs
    → Any (λ r. r ≡ c) rs
    → find (λ r. r.id == id) rs ≡ some c
find-listed id c [] e d h = elim h [ ]
find-listed id c (r ∷ rs) e d (inl here) = ground arith
find-listed id c (r ∷ rs) e d (inr there) =
    let (o, same, other) = Any-All (λ r'. r' ≡ c) (λ r'. r.id ≢ r'.id) rs there d.0 in
    let differs : r.id ≢ id = λ x. other (cc (x, e, same)) in
    ground (arith, find-listed id c rs e d.1 there)

module _ (distance : Place → Place → ℕ) (input : AllocationInput) where
  -- A candidate is feasible exactly if it is suitable.
  pub is_feasible-IsSuitable :
      (c : Candidate)
      → (is_feasible (evaluate_candidate distance input c) ≡ true) ↔ IsSuitable input c
  unfolding evaluate_candidate
  is_feasible-IsSuitable c = (
    λ e. record { is_available = ground arith; matches = ground arith; carries = ground arith },
    λ s. ground arith,
  )

  -- The criteria of the ranking, for a positive speed: travel time, surplus of capacity, id.
  abbrev pub travel : Candidate → ℕ
  travel c =
      round_div (distance input.incident_place c.place * 60 * input.average_speed.den)
        input.average_speed.num

  abbrev pub surplus : Candidate → ℕ
  surplus c = c.capacity - input.affected_people

  abbrev pub IsNoWorse : Candidate → Candidate → Type 0
  IsNoWorse c o =
      (travel c < travel o)
      ⊎ (travel c ≡ travel o) × ((surplus c < surplus o) ⊎ (surplus c ≡ surplus o) × (c.id ≤ o.id))

  IsNoWorse-NotAfter :
      (c o : Candidate)
      → 0 < input.average_speed.num
      → IsSuitable input c
      → IsSuitable input o
      → NotAfter (evaluate_candidate distance input c) (evaluate_candidate distance input o)
      → IsNoWorse c o
  unfolding evaluate_candidate compare_evaluations
  IsNoWorse-NotAfter c o fast s t h = ground arith

  abbrev evaluate : Candidate → Evaluation
  evaluate = evaluate_candidate distance input

  -- The recommended candidate is suitable, is in the list, and no suitable one is better.
  pub record IsBest (rs : List Candidate) (c : Candidate) : Type 0 where
    pub listed : Any (λ r. r ≡ c) rs
    pub suitable : IsSuitable input c
    pub no_worse : All (λ o. IsSuitable input o → IsNoWorse c o) rs

  top-IsBest :
      (rs : List Candidate) (rest : List Evaluation) (b : Evaluation)
      → 0 < input.average_speed.num
      → rank_candidates (filter is_feasible (map evaluate rs)) ≡ b ∷ rest
      → (c : Candidate) × (evaluate c ≡ b) × IsBest rs c
  top-IsBest rs rest b fast e =
      let evaluations = map evaluate rs in
      let found : Any (λ x. x ≡ b) (rank_candidates (filter is_feasible evaluations)) =
        subst (Any (λ x. x ≡ b)) (sym e) (inl refl) in
      let top : Any (λ x. (x ≡ b) × (is_feasible x ≡ true)) evaluations =
        Any-filter is_feasible (λ x. x ≡ b) evaluations
          (Any-rank_candidates (λ x. x ≡ b) (filter is_feasible evaluations) found) in
      let (c, chosen, listed) = Any-witness _ rs (Any-map evaluate _ rs top) in
      let suitable = (is_feasible-IsSuitable c).0 chosen.1 in
      let others : All (λ o. is_feasible (evaluate o) ≡ true → NotAfter b (evaluate o)) rs =
        All-map evaluate _ rs (
          All-filter is_feasible (NotAfter b) evaluations
            (rank_candidates-top (filter is_feasible evaluations) rest b e)) in
      (
        c,
        chosen.0,
        record {
          listed = listed;
          suitable = suitable;
          no_worse =
              All-mono _ (λ o. IsSuitable input o → IsNoWorse c o) rs
                (λ o h s. IsNoWorse-NotAfter c o fast suitable s (
                  subst (λ x. NotAfter x (evaluate o)) (sym chosen.0)
                    (h ((is_feasible-IsSuitable o).1 s))))
                others;
        },
      )

  -- What a recommendation promises.
  abbrev pub IsChoice : List Candidate → Option Candidate → Type 0
  IsChoice rs none = All (λ o. ¬ IsSuitable input o) rs
  IsChoice rs (some c) = IsBest rs c

  none-IsSuitable :
      (rs : List Candidate)
      → rank_candidates (filter is_feasible (map evaluate rs)) ≡ []
      → All (λ o. ¬ IsSuitable input o) rs
  none-IsSuitable rs e =
      let evaluations = map evaluate rs in
      let nothing : All (λ _. ⊥) (filter is_feasible evaluations) =
        All-rank_candidates (λ _. ⊥) (filter is_feasible evaluations)
          (subst (All (λ _. ⊥)) (sym e) tt) in
      All-mono _ (λ o. ¬ IsSuitable input o) rs (λ o h s. h ((is_feasible-IsSuitable o).1 s))
        (All-map evaluate _ rs (All-filter is_feasible (λ _. ⊥) evaluations nothing))

  -- The last step, for a ranking `ranked`.
  select_best-IsChoice :
      (rs : List Candidate) (ranked : List Evaluation)
      → 0 < input.average_speed.num
      → Distinct rs
      → input.available_resources ≡ rs
      → rank_candidates (filter is_feasible (map evaluate rs)) ≡ ranked
      → IsChoice rs (select_best input (map evaluate rs) ranked).selected_resource
  unfolding select_best evaluate_candidate
  select_best-IsChoice rs [] fast d same e = none-IsSuitable rs e
  select_best-IsChoice rs (b ∷ rest) fast d same e =
      let (c, chosen, best) = top-IsBest rs rest b fast e in
      let id : c.id ≡ b.resource_id = ap (λ (x : Evaluation). x.resource_id) chosen in
      let found : find (λ r. r.id == b.resource_id) input.available_resources ≡ some c =
        subst (λ rs'. find (λ r. r.id == b.resource_id) rs' ≡ some c) (sym same)
          (find-listed b.resource_id c rs id d best.listed) in
      rw found best

  recommend_from-IsChoice :
      (rs : List Candidate)
      → 0 < input.average_speed.num
      → Distinct rs
      → input.available_resources ≡ rs
      → IsChoice rs (recommend_from distance input rs).selected_resource
  unfolding recommend_from
  recommend_from-IsChoice [] fast d same = tt
  recommend_from-IsChoice (r ∷ rs) fast d same = select_best-IsChoice (r ∷ rs) _ fast d same refl

  -- At a positive speed and with distinct ids, a resource is recommended exactly if one is
  -- AVAILABLE, of a required type and large enough; and then one of these that has the least ETA,
  -- among those of the same ETA the least surplus of capacity, and among these the first id.
  pub recommend_resource-IsChoice :
      0 < input.average_speed.num
      → Distinct input.available_resources
      → IsChoice input.available_resources (recommend_resource distance input).selected_resource
  unfolding recommend_resource
  recommend_resource-IsChoice fast d = recommend_from-IsChoice input.available_resources fast d refl
