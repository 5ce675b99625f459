-- ===== src/Decision/Allocation.antt =====
-- src/modules/decision/resource-allocation.engine.ts. The great-circle distance is a parameter: it
-- is computed with floating-point trigonometry, and gives hundredths of a kilometre. Speeds are
-- fractions of natural numbers in km/h, with 0 for the speeds that are not positive; an ETA is in
-- hundredths of a minute. Reason texts are replaced by the case that they report.
pub mod Sorting
pub mod Choice
pub mod Unranked
use res_q_server.Common.{
  Bool, List, Option, Text, [], false, filter, find, if◌then◌else◌, leb, ltb, map, nat_eq, none,
  not, some, text_eq, true, ℕ, ◌*◌, ◌-◌, ◌==◌, ◌∷◌,
}
use res_q_server.Db.Rows.{
  Place, ResourceStatus, assignment_status_eq, incident_status_eq, resource_status_eq, role_eq,
}
use res_q_server.Decision.Priority.{round_div}
use res_q_server.Decision.Matching.{is_type_match}
use res_q_server.Db.Tables.{assignment_row, incident_row, outbox_row, resource_row, user_row}

pub record Candidate : Type 0 where
  pub id : ℕ
  pub name : Text
  pub type : Text
  pub status : ResourceStatus
  pub capacity : ℕ
  pub place : Place

pub record Speed : Type 0 where
  pub num : ℕ
  pub den : ℕ

pub data Eta : Type 0 where
  minutes : ℕ → Eta
  infinite : Eta

pub data Rejection : Type 0 where
  not_available : ResourceStatus → Rejection
  type_mismatch : Rejection
  capacity_insufficient : Rejection
  route_blocked : Rejection

-- The fields that the source leaves undefined for a rejected candidate are those of `rejected`.
pub data Verdict : Type 0 where
  rejected : Rejection → Verdict
  feasible : (distance : ℕ) (eta : Eta) (capacity_fit : ℕ) → Verdict

pub record Evaluation : Type 0 where
  pub resource_id : ℕ
  pub resource_name : Text
  pub resource_type : Text
  pub verdict : Verdict

-- Math.round((distanceKm / averageSpeedKmh) * 60 * 100) / 100, on exact fractions. Where the exact
-- value lies midway between two hundredths, as it may at 40 km/h, the source's floating-point
-- quotient can lie a little below it and give the hundredth below.
unfoldable pub estimate_eta_minutes : ℕ → Speed → Eta
estimate_eta_minutes distance speed =
    if leb speed.num 0
    then Eta.infinite
    else Eta.minutes (round_div (distance * 60 * speed.den) speed.num)

pub record AllocationInput : Type 0 where
  pub incident_id : ℕ
  pub incident_place : Place
  pub affected_people : ℕ
  pub resource_requirements : List Text
  pub available_resources : List Candidate
  pub average_speed : Speed

module _ (haversine_distance : Place → Place → ℕ) where
  unfoldable pub evaluate_candidate : AllocationInput → Candidate → Evaluation
  unfolding estimate_eta_minutes
  evaluate_candidate input r = record {
    resource_id = r.id;
    resource_name = r.name;
    resource_type = r.type;
    verdict =
        if not (r.status == ResourceStatus.available)
        then Verdict.rejected (Rejection.not_available r.status)
        else if not (is_type_match r.type input.resource_requirements)
        then Verdict.rejected Rejection.type_mismatch
        else if ltb r.capacity input.affected_people
        then Verdict.rejected Rejection.capacity_insufficient
        else let distance = haversine_distance input.incident_place r.place in
          Verdict.feasible distance (estimate_eta_minutes distance input.average_speed)
            (r.capacity - input.affected_people);
  }

abbrev pub is_feasible : Evaluation → Bool
is_feasible e = elim e.verdict [ Verdict.rejected _ ↦ false | Verdict.feasible _ _ _ ↦ true ]

-- The sign of what the comparator of `sort` returns. NaN counts as 0.
pub data Order : Type 0 where
  before same after : Order

abbrev pub compare_numbers : ℕ → ℕ → Order
compare_numbers a b = if ltb a b then Order.before else if ltb b a then Order.after else Order.same

-- The steps after the ETA: the surplus of capacity, and the id.
unfoldable pub compare_fit : (fit fit' id id' : ℕ) → Order
compare_fit fit fit' id id' =
    if fit == fit' then compare_numbers id id' else compare_numbers fit fit'

-- `Infinity - Infinity` is NaN, which is not 0: two infinite ETAs end the comparison, as equals.
unfoldable pub compare_eta : Eta → Eta → Order → Order
compare_eta (Eta.minutes a) (Eta.minutes b) rest = if a == b then rest else compare_numbers a b
compare_eta (Eta.minutes a) Eta.infinite rest = Order.before
compare_eta Eta.infinite (Eta.minutes b) rest = Order.after
compare_eta Eta.infinite Eta.infinite rest = Order.same

-- A missing ETA counts as Infinity; only feasible evaluations are ranked.
unfoldable pub compare_verdicts : (id id' : ℕ) → Verdict → Verdict → Order
unfolding compare_eta compare_fit
compare_verdicts id id' (Verdict.feasible _ eta fit) (Verdict.feasible _ eta' fit') =
    compare_eta eta eta' (compare_fit fit fit' id id')
compare_verdicts id id' (Verdict.feasible _ eta fit) (Verdict.rejected _) =
    compare_eta eta Eta.infinite Order.same
compare_verdicts id id' (Verdict.rejected _) (Verdict.feasible _ eta' fit') =
    compare_eta Eta.infinite eta' Order.same
compare_verdicts id id' (Verdict.rejected _) (Verdict.rejected _) = Order.same

unfoldable pub compare_evaluations : Evaluation → Evaluation → Order
unfolding compare_verdicts
compare_evaluations a b = compare_verdicts a.resource_id b.resource_id a.verdict b.verdict

-- Array.prototype.sort, which is stable.
unfoldable pub insert_ranked : Evaluation → List Evaluation → List Evaluation
insert_ranked e [] = e ∷ []
insert_ranked e (x ∷ xs) = elim (compare_evaluations e x) [
  | Order.after ↦ x ∷ insert_ranked e xs
  | _ ↦ e ∷ x ∷ xs
]

unfoldable pub rank_candidates : List Evaluation → List Evaluation
unfolding insert_ranked compare_evaluations
rank_candidates [] = []
rank_candidates (e ∷ es) = insert_ranked e (rank_candidates es)

pub data Message : Type 0 where
  no_resources no_suitable recommended blocked : Message

pub record AllocationResult : Type 0 where
  pub incident_id : ℕ
  pub selected_resource : Option Candidate
  pub best : Option Evaluation
  pub rejected_candidates : List Evaluation
  pub candidate_evaluations : List Evaluation
  pub message : Message

-- Step 3: the top of the ranking, and its full record.
unfoldable pub select_best : AllocationInput → List Evaluation → List Evaluation → AllocationResult
select_best input evaluations [] = record {
  incident_id = input.incident_id;
  selected_resource = none;
  best = none;
  rejected_candidates = filter (λ e. not (is_feasible e)) evaluations;
  candidate_evaluations = evaluations;
  message = Message.no_suitable;
}
select_best input evaluations (best ∷ rest) = record {
  incident_id = input.incident_id;
  selected_resource = find (λ r. r.id == best.resource_id) input.available_resources;
  best = some best;
  rejected_candidates = filter (λ e. not (is_feasible e)) evaluations;
  candidate_evaluations = evaluations;
  message = Message.recommended;
}

unfoldable pub recommend_from :
    (Place → Place → ℕ) → AllocationInput → List Candidate → AllocationResult
unfolding evaluate_candidate select_best rank_candidates
recommend_from haversine_distance input [] = record {
  incident_id = input.incident_id;
  selected_resource = none;
  best = none;
  rejected_candidates = [];
  candidate_evaluations = [];
  message = Message.no_resources;
}
recommend_from haversine_distance input (r ∷ rest) =
    let evaluations = map (evaluate_candidate haversine_distance input) (r ∷ rest) in
    select_best input evaluations (rank_candidates (filter is_feasible evaluations))

unfoldable pub recommend_resource : (Place → Place → ℕ) → AllocationInput → AllocationResult
unfolding recommend_from
recommend_resource haversine_distance input =
    recommend_from haversine_distance input input.available_resources
