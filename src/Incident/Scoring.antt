-- ===== src/Incident/Scoring.antt =====
-- The priority of an incident after an update.
use res_q_server.Common.{
  if◌then◌else◌, ◌≡◌, ok, arith, length, nat_eq, none, refl, some, text_eq, ℕ, ◌+◌, ◌∷◌, Bool-cases,
  inl, inr, length-append, Option, true, ◌≢◌, ◌⊎◌, ap, false, sym, ◌∙◌,
}
use res_q_server.Incident.Defs.{
  UpdateIncidentInput, apply_update, calculate_and_save_priority, priority_input,
  touches_priority_fields, check_update, update_incident, recalculate, default, default_some,
  is_defined,
}
use res_q_server.Db.Rows.{
  Db, DecisionType, Incident, assignment_status_eq, incident_status_eq, resource_status_eq, role_eq,
  IncidentStatus, Payload, Role, hospital_status_eq, level_eq, user_status_eq,
}
use res_q_server.Db.Tables.{
  assignment_row, find_unique, find_unique-set_row, incident_row, outbox_row, resource_row, set_row,
  update_row, user_row, hospital_row,
}
use res_q_server.Decision.Priority.{calculate_priority}
use res_q_server.Assignment.Defs.{write_outbox_event}

abbrev pub score_of : Incident → ℕ
score_of i = (calculate_priority (priority_input i)).priority_score

-- The row that an update leaves: the given fields are replaced, and the score is computed from the
-- replaced fields if one of those that it depends on was given.
abbrev pub rescored : UpdateIncidentInput → Incident → Incident
rescored input i = record (apply_update input i) {
  priority_score =
      if touches_priority_fields input
      then some (score_of (apply_update input i))
      else i.priority_score;
}

calculate_and_save_priority_found :
    (id : ℕ) (db : Db) (i : Incident)
    → find_unique id db.incidents ≡ some i
    → (out : Db) × (calculate_and_save_priority id db ≡ ok (score_of i, out))
      × (find_unique id out.incidents ≡ some (record i { priority_score = some (score_of i) }))
      × (out.outbox ≡ db.outbox)
      × (length out.decisions ≡ length db.decisions + 1)
unfolding calculate_and_save_priority update_row
calculate_and_save_priority_found id db i found =
    let set : Incident → Incident = λ x. record x { priority_score = some (score_of i) } in
    (
      record db {
        incidents = set_row id set db.incidents;
        decisions =
            record {
              incident_id = id;
              selected_resource_id = none;
              decision_type = DecisionType.priority_calculation;
              priority_score = some (score_of i);
            }
            ∷ db.decisions;
      },
      ground arith,
      ground (arith, find_unique-set_row id id set db.incidents (λ x. refl)),
      refl,
      omega arith,
    )

-- Who may edit which incident.
pub data MayUpdate (i : Incident) (user_id : ℕ) (role : Role) : Type 0 where
  own :
      role ≡ Role.citizen
      → i.created_by_id ≡ user_id
      → i.status ≡ IncidentStatus.pending
      → MayUpdate i user_id role
  admin : role ≡ Role.admin → MayUpdate i user_id role
  coordinator : role ≡ Role.coordinator → MayUpdate i user_id role

check-MayUpdate :
    {i : Incident} {user_id : ℕ} {role : Role}
    → MayUpdate i user_id role
    → check_update i user_id role ≡ ok tt
unfolding check_update
check-MayUpdate (MayUpdate.own r o s) = ground arith
check-MayUpdate (MayUpdate.admin r) = ground arith
check-MayUpdate (MayUpdate.coordinator r) = ground arith

updated : ℕ → ℕ → UpdateIncidentInput → Db → Db
updated event_id id input db = record db {
  incidents = set_row id (apply_update input) db.incidents;
  outbox = write_outbox_event event_id (Payload.incident_updated id) db.outbox;
}

-- A field after an edit: what was given, or what it was.
abbrev pub Takes : {A : Type 0} → Option A → A → A → Type 0
Takes none old new = new ≡ old
Takes (some a) old new = new ≡ a

-- A field that may be empty, likewise.
abbrev pub TakesSome : {A : Type 0} → Option A → Option A → Option A → Type 0
TakesSome none old new = new ≡ old
TakesSome (some a) old new = new ≡ some a

-- The fields of an incident after an edit, but for the score.
pub record IsEdited (input : UpdateIncidentInput) (before after : Incident) : Type 0 where
  pub severity : Takes input.severity before.severity after.severity
  pub affected_people : Takes input.affected_people before.affected_people after.affected_people
  pub latitude : Takes input.latitude before.place.latitude after.place.latitude
  pub longitude : Takes input.longitude before.place.longitude after.place.longitude
  pub time_sensitivity : Takes input.time_sensitivity before.time_sensitivity after.time_sensitivity
  pub environmental_condition :
      TakesSome input.environmental_condition before.environmental_condition
        after.environmental_condition
  pub resource_requirements :
      Takes input.resource_requirements before.resource_requirements after.resource_requirements
  pub id : after.id ≡ before.id
  pub status : after.status ≡ before.status
  pub created_by_id : after.created_by_id ≡ before.created_by_id

-- One of the five fields from which the priority is computed was given.
abbrev pub Rescores : UpdateIncidentInput → Type 0
Rescores input =
    (input.severity ≢ none)
    ⊎ (input.time_sensitivity ≢ none)
    ⊎ (input.affected_people ≢ none)
    ⊎ (input.environmental_condition ≢ none)
    ⊎ (input.resource_requirements ≢ none)

-- The stored score is that of the fields.
abbrev pub IsScored : Incident → Type 0
IsScored i = i.priority_score ≡ some (score_of i)

Takes-default : {A : Type 0} (o : Option A) (a : A) → Takes o a (default o a)
Takes-default none a = refl
Takes-default (some b) a = refl

TakesSome-default_some :
    {A : Type 0} (o : Option A) (a : Option A) → TakesSome o a (default_some o a)
TakesSome-default_some none a = refl
TakesSome-default_some (some b) a = refl

rescored-IsEdited :
    (input : UpdateIncidentInput) (i : Incident) → IsEdited input i (rescored input i)
rescored-IsEdited input i = record {
  severity = Takes-default input.severity i.severity;
  affected_people = Takes-default input.affected_people i.affected_people;
  latitude = Takes-default input.latitude i.place.latitude;
  longitude = Takes-default input.longitude i.place.longitude;
  time_sensitivity = Takes-default input.time_sensitivity i.time_sensitivity;
  environmental_condition =
      TakesSome-default_some input.environmental_condition i.environmental_condition;
  resource_requirements = Takes-default input.resource_requirements i.resource_requirements;
  id = refl;
  status = refl;
  created_by_id = refl;
}

touches-Rescores :
    (input : UpdateIncidentInput) → Rescores input → touches_priority_fields input ≡ true
unfolding touches_priority_fields
touches-Rescores input h = ground arith

Rescores-touches_priority_fields :
    (input : UpdateIncidentInput) → touches_priority_fields input ≡ true → Rescores input
unfolding touches_priority_fields
Rescores-touches_priority_fields input h = ground arith

default_undefined : {A : Type 0} (o : Option A) (a : A) → is_defined o ≡ false → default o a ≡ a
default_undefined none a e = refl
default_undefined (some b) a e = cc

default_some_undefined :
    {A : Type 0} (o : Option A) (a : Option A) → is_defined o ≡ false → default_some o a ≡ a
default_some_undefined none a e = refl
default_some_undefined (some b) a e = cc

-- An edit without any of the five fields keeps what the priority is computed from.
untouched-priority_input :
    (input : UpdateIncidentInput) (i : Incident)
    → touches_priority_fields input ≡ false
    → priority_input (apply_update input i) ≡ priority_input i
unfolding touches_priority_fields
untouched-priority_input input i e =
    let severity = default_undefined input.severity i.severity (ground arith) in
    let people = default_undefined input.affected_people i.affected_people (ground arith) in
    let time = default_undefined input.time_sensitivity i.time_sensitivity (ground arith) in
    let condition =
      default_some_undefined input.environmental_condition i.environmental_condition
        (ground arith) in
    let requirements =
      default_undefined input.resource_requirements i.resource_requirements (ground arith) in
    λ j. record {
      severity = severity j;
      time_sensitivity = time j;
      affected_people = people j;
      environmental_condition = condition j;
      resource_requirements = requirements j;
    }

rescored-touched :
    (input : UpdateIncidentInput) (i : Incident)
    → touches_priority_fields input ≡ true
    → IsScored (rescored input i)
rescored-touched input i e = rw e refl

rescored-untouched :
    (input : UpdateIncidentInput) (i : Incident)
    → touches_priority_fields input ≡ false
    → (rescored input i).priority_score ≡ i.priority_score
rescored-untouched input i e = rw e refl

rescored-IsScored :
    (input : UpdateIncidentInput) (i : Incident) → IsScored i → IsScored (rescored input i)
rescored-IsScored input i scored = elim (Bool-cases (touches_priority_fields input)) [
  | inl touched ↦ rescored-touched input i touched
  | inr untouched ↦
      rescored-untouched input i untouched
      ∙ scored
      ∙ ap (λ x. some (calculate_priority x).priority_score)
          (sym (untouched-priority_input input i untouched))
]

-- What an edit does to the row of an incident and to the number of decisions logged for it.
abbrev pub IsRescored : UpdateIncidentInput → Incident → Incident → (before after : ℕ) → Type 0
IsRescored input i j before after =
    IsEdited input i j
    × (Rescores input → IsScored j × (after ≡ before + 1))
    × (¬ Rescores input → (j.priority_score ≡ i.priority_score) × (after ≡ before))
    × (IsScored i → IsScored j)

rescored-IsRescored :
    (input : UpdateIncidentInput) (i : Incident) (before after : ℕ)
    → after ≡ before + (if touches_priority_fields input then 1 else 0)
    → IsRescored input i (rescored input i) before after
rescored-IsRescored input i before after logged =
    elim (Bool-cases (touches_priority_fields input)) [
      | inl touched ↦ (
        rescored-IsEdited input i,
        λ given. (rescored-touched input i touched, ground (arith, touched, logged)),
        λ none_given. absurd (none_given (Rescores-touches_priority_fields input touched)),
        rescored-IsScored input i,
      )
      | inr untouched ↦ (
        rescored-IsEdited input i,
        λ given. absurd (let t = touches-Rescores input given in cc),
        λ none_given. (rescored-untouched input i untouched, ground (arith, untouched, logged)),
        rescored-IsScored input i,
      )
    ]

-- The row and the sizes of the tables after the edit.
update_incident-out :
    (event_id : ℕ) (db : Db) (id user_id : ℕ) (role : Role) (input : UpdateIncidentInput)
    (i : Incident)
    → find_unique id db.incidents ≡ some i
    → MayUpdate i user_id role
    → (out : Db) × (update_incident event_id db db id input user_id role ≡ ok out)
      × (find_unique id out.incidents ≡ some (rescored input i))
      × (length out.outbox ≡ length db.outbox + 1)
      × (length out.decisions
          ≡ length db.decisions + (if touches_priority_fields input then 1 else 0))
unfolding update_incident recalculate updated write_outbox_event update_row
update_incident-out event_id db id user_id role input i found may =
    let db' = updated event_id id input db in
    let found' : find_unique id db'.incidents ≡ some (apply_update input i) =
      ground (arith, find_unique-set_row id id (apply_update input) db.incidents (λ x. refl)) in
    let run : update_incident event_id db db id input user_id role
        ≡ recalculate id db' (touches_priority_fields input) =
      ground (arith, check-MayUpdate may) in
    let written : length db'.outbox ≡ length db.outbox + 1 = length-append db.outbox _ in
    elim (Bool-cases (touches_priority_fields input)) [
      | inl touched ↦
          let (out, scored, now, outbox, decisions) =
            calculate_and_save_priority_found id db' (apply_update input i) found' in
          (
            out,
            ground (arith, run, scored, touched),
            ground (arith, now, touched),
            ground (arith, outbox, written),
            ground (arith, decisions, touched),
          )
      | inr untouched ↦ (
        db',
        ground (arith, run, untouched),
        ground (arith, found', untouched),
        written,
        ground (arith, untouched),
      )
    ]

-- With no other write in between, an edit of a listed incident by one who may edit it succeeds.
-- Each field that is given is replaced, and the others, the status and the reporter are kept. If
-- one of severity, time sensitivity, affected people, environmental condition and requirements is
-- given, the stored score becomes the priority of the fields as they are then, with one decision
-- logged; otherwise it stays, with none. So a score that was that of the fields before is that of
-- the fields after. One event is written.
pub update_incident-IsRescored :
    (event_id : ℕ) (db : Db) (id user_id : ℕ) (role : Role) (input : UpdateIncidentInput)
    (i : Incident)
    → find_unique id db.incidents ≡ some i
    → MayUpdate i user_id role
    → (out : Db) × (j : Incident) × (update_incident event_id db db id input user_id role ≡ ok out)
      × (find_unique id out.incidents ≡ some j)
      × IsRescored input i j (length db.decisions) (length out.decisions)
      × (length out.outbox ≡ length db.outbox + 1)
update_incident-IsRescored event_id db id user_id role input i found may =
    let (out, run, row, events, logged) =
      update_incident-out event_id db id user_id role input i found may in
    (
      out,
      rescored input i,
      run,
      row,
      rescored-IsRescored input i (length db.decisions) (length out.decisions) logged,
      events,
    )
