-- ===== src/Tests/Incident.antt =====
-- The life of the district's incidents.
use res_q_server.Common.{
  ok, err, some, none, refl, ◌≡◌, app, [], bad_request, forbidden, length, nat_eq, text_eq, ◌+◌,
  ◌↔◌, ◌∷◌,
}
use res_q_server.Incident.Defs.{
  CreateIncidentInput, UpdateIncidentInput, apply_update, approve_incident, cancel_incident,
  update_incident, update_incident_status,
}
use res_q_server.Tests.Fixtures.{district, fire, flood, harbour}
use res_q_server.Incident.Lifecycle.{Moves, update_incident_status_iff, with_status}
use res_q_server.Db.Rows.{
  Db, Incident, IncidentStatus, Level, Role, assignment_status_eq, incident_status_eq,
  resource_status_eq, role_eq, hospital_status_eq, level_eq, user_status_eq,
}
use res_q_server.Decision.Priority.{
  calculate_priority, classify_environmental_risk, normalize_requirements,
}
use res_q_server.Incident.Scoring.{IsRescored, MayUpdate, score_of, update_incident-IsRescored}
use res_q_server.Assignment.Defs.{set_incident_status}
use res_q_server.Db.Tables.{
  assignment_row, find_unique, incident_row, outbox_row, resource_row, user_row, hospital_row,
}

update_incident_status_iff_example :
    (update_incident_status district district 11 IncidentStatus.rejected
      ≡ ok (with_status 11 IncidentStatus.rejected district))
    ↔ ((i : Incident) × (find_unique 11 district.incidents ≡ some i)
        × Moves i.status IncidentStatus.rejected
        × (with_status 11 IncidentStatus.rejected district
            ≡ with_status 11 IncidentStatus.rejected district))
update_incident_status_iff_example =
    update_incident_status_iff district 11 IncidentStatus.rejected
      (with_status 11 IncidentStatus.rejected district)

refuses_shortcut :
    update_incident_status district district 11 IncidentStatus.completed ≡ err (app bad_request)
unfolding update_incident_status find_unique
refuses_shortcut = refl

approves :
    approve_incident district district 11 ≡ ok (with_status 11 IncidentStatus.approved district)
unfolding approve_incident find_unique
approves = refl

-- The flood is rejected on a table in which it is PENDING, after another request has approved it.
abbrev approved_flood : Incident
approved_flood = set_incident_status IncidentStatus.approved flood

abbrev approved_meanwhile : Db
approved_meanwhile = record district { incidents = fire ∷ approved_flood ∷ [] }

cancels :
    cancel_incident district district 10 2 Role.coordinator
    ≡ ok (with_status 10 IncidentStatus.cancelled district)
unfolding cancel_incident find_unique
cancels = refl

citizen_may_not_cancel : cancel_incident district district 10 1 Role.citizen ≡ err (app forbidden)
unfolding cancel_incident find_unique
citizen_may_not_cancel = refl

abbrev rejected_flood : Incident
rejected_flood = set_incident_status IncidentStatus.rejected flood

abbrev report : CreateIncidentInput
report = record {
  severity = Level.high;
  affected_people = 3;
  place = harbour;
  time_sensitivity = Level.high;
  environmental_condition = none;
  resource_requirements = [];
}

abbrev worse : UpdateIncidentInput
worse = record {
  severity = some Level.critical;
  affected_people = some 120;
  latitude = none;
  longitude = none;
  time_sensitivity = none;
  environmental_condition = none;
  resource_requirements = none;
}

update_incident-IsRescored_example :
    (out : Db) × (j : Incident) × (update_incident 42 district district 11 worse 1 Role.citizen
      ≡ ok out)
    × (find_unique 11 out.incidents ≡ some j)
    × IsRescored worse flood j (length district.decisions) (length out.decisions)
    × (length out.outbox ≡ length district.outbox + 1)
unfolding find_unique
update_incident-IsRescored_example =
    update_incident-IsRescored 42 district 11 1 Role.citizen worse flood refl
      (MayUpdate.own refl refl refl)

worse_score : score_of (apply_update worse flood) ≡ 7485
unfolding calculate_priority classify_environmental_risk normalize_requirements
worse_score = refl
