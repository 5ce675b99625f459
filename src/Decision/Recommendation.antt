-- ===== src/Decision/Recommendation.antt =====
-- recommendResourceForIncident and getDecisionsByIncident of
-- src/modules/decision/decision.service.ts. The explanation of a decision log is left out.
pub mod Assignable
use res_q_server.Reoptimization.Strategy.{candidate_of}
use res_q_server.Common.{
  List, Option, Result, app, filter, map, nat_eq, none, not_found, ok, or_throw, some, text_eq, ℕ,
  ◌==◌, ◌>>=◌, ◌>>◌, ◌∷◌,
}
use res_q_server.Db.Rows.{
  Db, DecisionLog, DecisionType, Incident, Place, assignment_status_eq, hospital_status_eq,
  incident_status_eq, level_eq, resource_status_eq, role_eq, user_status_eq,
}
use res_q_server.Decision.Allocation.{AllocationInput, AllocationResult, Speed, recommend_resource}
use res_q_server.Db.Tables.{
  assignment_row, find_unique, hospital_row, incident_row, outbox_row, resource_row, user_row,
}

-- The input of the engine: all resources, whatever their status.
unfoldable pub recommendation_input : Speed → Incident → Db → AllocationInput
recommendation_input speed i db = record {
  incident_id = i.id;
  incident_place = i.place;
  affected_people = i.affected_people;
  resource_requirements = i.resource_requirements;
  available_resources = map candidate_of db.resources;
  average_speed = speed;
}

-- selectedResource?.id ?? null
abbrev pub selected_id : AllocationResult → Option ℕ
selected_id result = elim result.selected_resource [ none ↦ none | some c ↦ some c.id ]

abbrev pub recommendation_log : ℕ → AllocationResult → DecisionLog
recommendation_log incident_id result = record {
  incident_id = incident_id;
  selected_resource_id = selected_id result;
  decision_type = DecisionType.resource_recommendation;
  priority_score = none;
}

unfoldable pub recommend_resource_for_incident :
    (Place → Place → ℕ) → Speed → ℕ → Db → Result (AllocationResult × Db)
unfolding recommendation_input recommend_resource
recommend_resource_for_incident distance speed incident_id db = do
  incident ← or_throw (find_unique incident_id db.incidents) (app not_found)
  let result = recommend_resource distance (recommendation_input speed incident db)
  ok (result, record db { decisions = recommendation_log incident_id result ∷ db.decisions })

-- The newest log comes first, as in the table.
unfoldable pub get_decisions_by_incident : ℕ → Db → Result (List DecisionLog)
get_decisions_by_incident incident_id db = do
  _ ← or_throw (find_unique incident_id db.incidents) (app not_found)
  ok (filter (λ d. d.incident_id == incident_id) db.decisions)
