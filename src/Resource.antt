-- ===== src/Resource.antt =====
-- src/modules/resource/resource.service.ts: the operations that change a resource, on the
-- database. The reads, their cache and its invalidation are in Reads.
pub mod Reads
use mathlib.Core.Option
use res_q_server.Common.{
  ℕ, Option, Text, Bool, none, some, false, not, guard, or_throw, app, ok, if◌then◌else◌, ◌∷◌, ◌==◌,
  find, forbidden, not_found, bad_request, Result, nat_eq, text_eq, ◌>>=◌, ◌>>◌, ◌||◌, true,
}
use res_q_server.Db.Tables.{
  assignment_row, find_unique, incident_row, outbox_row, resource_row, update_row, user_row,
  hospital_row,
}
use res_q_server.Db.Rows.{
  Db, Payload, Place, Resource, ResourceStatus, Role, assignment_status_eq, incident_status_eq,
  resource_status_eq, role_eq, hospital_status_eq, level_eq, user_status_eq, Degrees,
}
use res_q_server.Incident.Defs.{default, default_some, is_defined}
use res_q_server.Assignment.Defs.{is_active_on, set_resource_status, write_outbox_event}

pub record CreateResourceInput : Type 0 where
  pub name : Text
  pub type : Text
  pub place : Place
  pub capacity : ℕ
  pub status : Option ResourceStatus
  pub operator_id : Option ℕ

-- prisma/schema.prisma: a resource is AVAILABLE where no status is given.
unfoldable pub create_resource : (id : ℕ) → CreateResourceInput → Db → Resource × Db
create_resource id input db =
    let resource : Resource = record {
      id = id;
      name = input.name;
      type = input.type;
      status = default input.status ResourceStatus.available;
      place = input.place;
      capacity = input.capacity;
      operator_id = input.operator_id;
    } in
    (resource, record db { resources = resource ∷ db.resources })

pub record UpdateResourceInput : Type 0 where
  pub name : Option Text
  pub type : Option Text
  pub latitude : Option Degrees
  pub longitude : Option Degrees
  pub capacity : Option ℕ
  pub status : Option ResourceStatus
  pub operator_id : Option (Option ℕ)  -- `null` removes the operator

-- The fields of the request that an OPERATOR may not send.
unfoldable pub has_disallowed : UpdateResourceInput → Bool
has_disallowed input =
    is_defined input.name
    || is_defined input.type
    || is_defined input.capacity
    || is_defined input.operator_id

-- `operatorId === userId`
abbrev pub is_operator : ℕ → Option ℕ → Bool
is_operator user_id none = false
is_operator user_id (some operator_id) = operator_id == user_id

-- `where['operatorId'] = user.userId` for an OPERATOR
abbrev pub serves_operator : (wanted operator_id : Option ℕ) → Bool
serves_operator none operator_id = true
serves_operator (some user_id) operator_id = is_operator user_id operator_id

unfoldable pub check_resource_update :
    Resource → (user_id : ℕ) → Role → UpdateResourceInput → Result (Unit {0})
unfolding has_disallowed
check_resource_update resource user_id Role.operator input =
    guard (is_operator user_id resource.operator_id) (app forbidden)
    >> guard (not (has_disallowed input)) (app forbidden)
check_resource_update resource user_id _ input = ok tt

abbrev pub apply_resource_update : UpdateResourceInput → Resource → Resource
apply_resource_update input r = record r {
  name = default input.name r.name;
  type = default input.type r.type;
  place = record {
    latitude = default input.latitude r.place.latitude;
    longitude = default input.longitude r.place.longitude;
  };
  capacity = default input.capacity r.capacity;
  status = default input.status r.status;
  operator_id = default input.operator_id r.operator_id;
}

-- The events of a status change. A FAILED resource is reported a second time.
unfoldable pub write_status_events :
    (event_id failure_event_id : ℕ) → Resource → ResourceStatus → Db → Db
unfolding write_outbox_event
write_status_events event_id failure_event_id resource status db =
    let changed =
      write_outbox_event event_id
        (Payload.resource_status_changed resource.id resource.status status) db.outbox in
    let assignment = Option.map (λ a. a.id) (find (is_active_on resource.id) db.assignments) in
    record db {
      outbox =
          if status == ResourceStatus.failed
          then write_outbox_event failure_event_id
              (Payload.resource_failure_detected resource.id assignment) changed
          else changed;
    }

unfoldable pub notify_status : ℕ → ℕ → Resource → Option ResourceStatus → Db → Db
unfolding write_status_events
notify_status event_id failure_event_id resource none db = db
notify_status event_id failure_event_id resource (some status) db =
    if status == resource.status
    then db
    else write_status_events event_id failure_event_id resource status db

unfoldable pub update_resource :
    (event_id failure_event_id : ℕ)
    → (seen met : Db) → ℕ
    → UpdateResourceInput
    → (user_id : ℕ) → Role
    → Result Db
unfolding check_resource_update notify_status update_row
update_resource event_id failure_event_id seen met id input user_id role = do
  resource ← or_throw (find_unique id seen.resources) (app not_found)
  check_resource_update resource user_id role input
  resources ← update_row id (apply_resource_update input) met.resources
  ok (
      notify_status event_id failure_event_id resource input.status
        (record met { resources = resources }))

-- assignOperator
unfoldable pub assign_operator : (seen met : Db) → (id operator_id : ℕ) → Result Db
unfolding update_row
assign_operator seen met id operator_id = do
  resource ← or_throw (find_unique id seen.resources) (app not_found)
  operator ← or_throw (find_unique operator_id seen.users) (app not_found)
  guard (operator.role == Role.operator) (app bad_request)
  resources ← update_row id (λ r. record r { operator_id = some operator_id }) met.resources
  ok (record met { resources = resources })

-- removeOperator
unfoldable pub remove_operator : (seen met : Db) → (id : ℕ) → Result Db
unfolding update_row
remove_operator seen met id = do
  resource ← or_throw (find_unique id seen.resources) (app not_found)
  resources ← update_row id (λ r. record r { operator_id = none }) met.resources
  ok (record met { resources = resources })

-- deactivateResource: the status changes, but no event is written.
unfoldable pub deactivate_resource : (seen met : Db) → (id : ℕ) → Result Db
unfolding update_row
deactivate_resource seen met id = do
  resource ← or_throw (find_unique id seen.resources) (app not_found)
  resources ← update_row id (set_resource_status ResourceStatus.unavailable) met.resources
  ok (record met { resources = resources })
