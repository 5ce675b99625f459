-- ===== src/Incident/Defs.antt =====
-- The transition map and the operations that change an incident.
use res_q_server.Assignment.Defs.{set_incident_status, write_outbox_event}
use res_q_server.Db.Rows.{
  Db, DecisionType, Incident, IncidentStatus, Level, Payload, Place, Role, assignment_status_eq,
  incident_status_eq, resource_status_eq, role_eq, Degrees, hospital_status_eq, level_eq,
  user_status_eq,
}
use res_q_server.Common.{
  Bool, List, Option, Result, Text, [], app, fatal, bad_request, codes, false, forbidden, guard,
  if◌then◌else◌, includes, nat_eq, none, not, not_found, ok, or_throw, some, text_eq, true, ℕ, ◌&&◌,
  ◌++◌, ◌==◌, ◌>>=◌, ◌>>◌, ◌||◌, ◌∷◌,
}
use res_q_server.Db.Tables.{
  assignment_row, find_unique, incident_row, outbox_row, resource_row, update_row, user_row,
  hospital_row,
}
use res_q_server.Decision.Priority.{PriorityInput, calculate_priority}

-- ALLOWED_STATUS_TRANSITIONS
unfoldable pub allowed_status_transitions : IncidentStatus → List IncidentStatus
allowed_status_transitions IncidentStatus.pending =
    IncidentStatus.approved ∷ IncidentStatus.rejected ∷ IncidentStatus.cancelled ∷ []
allowed_status_transitions IncidentStatus.approved =
    IncidentStatus.assigned ∷ IncidentStatus.cancelled ∷ []
allowed_status_transitions IncidentStatus.rejected = []
allowed_status_transitions IncidentStatus.assigned =
    IncidentStatus.in_progress ∷ IncidentStatus.cancelled ∷ []
allowed_status_transitions IncidentStatus.in_progress =
    IncidentStatus.completed ∷ IncidentStatus.cancelled ∷ []
allowed_status_transitions IncidentStatus.completed = []
allowed_status_transitions IncidentStatus.cancelled = []

pub record CreateIncidentInput : Type 0 where
  pub severity : Level
  pub affected_people : ℕ
  pub place : Place
  pub time_sensitivity : Level
  pub environmental_condition : Option Text
  pub resource_requirements : List Text

abbrev pub initial_status : Role → IncidentStatus
initial_status role =
    if role == Role.operator || role == Role.admin
    then IncidentStatus.approved
    else IncidentStatus.pending

unfoldable pub create_incident :
    (id event_id : ℕ) → CreateIncidentInput → (user_id : ℕ) → Role → Db → Incident × Db
unfolding write_outbox_event
create_incident id event_id input user_id role db =
    let incident : Incident = record {
      id = id;
      severity = input.severity;
      status = initial_status role;
      time_sensitivity = input.time_sensitivity;
      affected_people = input.affected_people;
      place = input.place;
      environmental_condition = input.environmental_condition;
      resource_requirements = input.resource_requirements;
      priority_score = none;
      created_by_id = user_id;
    } in
    (
      incident,
      record db {
        incidents = incident ∷ db.incidents;
        outbox = write_outbox_event event_id (Payload.incident_created id) db.outbox;
      },
    )

-- prisma.incident.update({ where: { id }, data: { status } })
abbrev pub write_status : IncidentStatus → ℕ → Db → Result Db
write_status status id db = do
  incidents ← update_row id (set_incident_status status) db.incidents
  ok (record db { incidents = incidents })

-- Approval needs a PENDING incident whose creator is, now, a CITIZEN.
unfoldable pub approve_incident : (seen met : Db) → ℕ → Result Db
unfolding update_row
approve_incident seen met id = do
  incident ← or_throw (find_unique id seen.incidents) (app not_found)
  guard (incident.status == IncidentStatus.pending) (app bad_request)
  creator ← or_throw (find_unique incident.created_by_id seen.users) fatal
  guard (creator.role == Role.citizen) (app bad_request)
  write_status IncidentStatus.approved id met

abbrev pub rejected_condition : Option Text → Incident → Incident
rejected_condition none i = set_incident_status IncidentStatus.rejected i
rejected_condition (some []) i = set_incident_status IncidentStatus.rejected i
rejected_condition (some (c ∷ cs)) i = record i {
  status = IncidentStatus.rejected;
  environmental_condition = some (codes "REJECTED: " ++ c ∷ cs);
}

unfoldable pub reject_incident : (seen met : Db) → ℕ → (reason : Option Text) → Result Db
unfolding update_row
reject_incident seen met id reason = do
  incident ← or_throw (find_unique id seen.incidents) (app not_found)
  guard (incident.status == IncidentStatus.pending) (app bad_request)
  incidents ← update_row id (rejected_condition reason) met.incidents
  ok (record met { incidents = incidents })

-- A CITIZEN may cancel its own PENDING incidents; any other role all but the finished ones.
unfoldable pub check_cancel : Incident → (user_id : ℕ) → Role → Result (Unit {0})
check_cancel incident user_id role =
    if role == Role.citizen
    then (guard (incident.created_by_id == user_id) (app forbidden)
        >> guard (incident.status == IncidentStatus.pending) (app forbidden))
    else guard
        (not (
          incident.status == IncidentStatus.completed
          || incident.status == IncidentStatus.cancelled))
        (app bad_request)

unfoldable pub cancel_incident : (seen met : Db) → ℕ → (user_id : ℕ) → Role → Result Db
unfolding check_cancel update_row
cancel_incident seen met id user_id role = do
  incident ← or_throw (find_unique id seen.incidents) (app not_found)
  check_cancel incident user_id role
  write_status IncidentStatus.cancelled id met

unfoldable pub update_incident_status : (seen met : Db) → ℕ → IncidentStatus → Result Db
unfolding allowed_status_transitions update_row
update_incident_status seen met id next = do
  incident ← or_throw (find_unique id seen.incidents) (app not_found)
  guard (includes (allowed_status_transitions incident.status) next) (app bad_request)
  write_status next id met

pub record UpdateIncidentInput : Type 0 where
  pub severity : Option Level
  pub affected_people : Option ℕ
  pub latitude : Option Degrees
  pub longitude : Option Degrees
  pub time_sensitivity : Option Level
  pub environmental_condition : Option Text
  pub resource_requirements : Option (List Text)

abbrev pub is_defined : {A : Type 0} → Option A → Bool
is_defined none = false
is_defined (some a) = true

unfoldable pub touches_priority_fields : UpdateIncidentInput → Bool
touches_priority_fields input =
    is_defined input.severity
    || is_defined input.affected_people
    || is_defined input.time_sensitivity
    || is_defined input.environmental_condition
    || is_defined input.resource_requirements

abbrev pub default : {A : Type 0} → Option A → A → A
default none a = a
default (some b) a = b

abbrev pub default_some : {A : Type 0} → Option A → Option A → Option A
default_some none a = a
default_some (some b) a = some b

-- The `data` of the update: a field that is not given stays.
abbrev pub apply_update : UpdateIncidentInput → Incident → Incident
apply_update input i = record i {
  severity = default input.severity i.severity;
  affected_people = default input.affected_people i.affected_people;
  place = record {
    latitude = default input.latitude i.place.latitude;
    longitude = default input.longitude i.place.longitude;
  };
  time_sensitivity = default input.time_sensitivity i.time_sensitivity;
  environmental_condition = default_some input.environmental_condition i.environmental_condition;
  resource_requirements = default input.resource_requirements i.resource_requirements;
}

abbrev pub priority_input : Incident → PriorityInput
priority_input i = record {
  severity = i.severity;
  time_sensitivity = i.time_sensitivity;
  affected_people = i.affected_people;
  environmental_condition = i.environmental_condition;
  resource_requirements = i.resource_requirements;
}

-- calculateAndSaveIncidentPriority of decision.service.ts, its log's explanation left out
unfoldable pub calculate_and_save_priority : ℕ → Db → Result (ℕ × Db)
unfolding update_row
calculate_and_save_priority id db = do
  incident ← or_throw (find_unique id db.incidents) (app not_found)
  let score = (calculate_priority (priority_input incident)).priority_score
  incidents ← update_row id (λ i. record i { priority_score = some score }) db.incidents
  ok (
    score,
    record db {
      incidents = incidents;
      decisions =
          record {
            incident_id = id;
            selected_resource_id = none;
            decision_type = DecisionType.priority_calculation;
            priority_score = some score;
          }
          ∷ db.decisions;
    },
  )

unfoldable pub check_update : Incident → (user_id : ℕ) → Role → Result (Unit {0})
check_update incident user_id role = do
  guard (not (role == Role.citizen && not (incident.created_by_id == user_id))) (app forbidden)
  guard (not (role == Role.citizen && not (incident.status == IncidentStatus.pending)))
      (app forbidden)
  guard (not (role == Role.operator)) (app forbidden)

unfoldable pub recalculate : ℕ → Db → Bool → Result Db
unfolding calculate_and_save_priority
recalculate id db false = ok db
recalculate id db true = do scored ← calculate_and_save_priority id db; ok scored.1

-- The update, its event, and the new priority where a field that it depends on was given.
unfoldable pub update_incident :
    (event_id : ℕ) → (seen met : Db) → ℕ → UpdateIncidentInput → (user_id : ℕ) → Role → Result Db
unfolding check_update touches_priority_fields recalculate write_outbox_event update_row
update_incident event_id seen met id input user_id role = do
  incident ← or_throw (find_unique id seen.incidents) (app not_found)
  check_update incident user_id role
  incidents ← update_row id (apply_update input) met.incidents
  let updated : Db = record met {
    incidents = incidents;
    outbox = write_outbox_event event_id (Payload.incident_updated id) met.outbox;
  }
  recalculate id updated (touches_priority_fields input)
