-- ===== src/Routes.antt =====
-- The routes of src/modules: which roles may make a call, and which guard of
-- src/middlewares/permissions.ts stands before its handler.
pub mod Owners
use res_q_server.Auth.{Jwt, authenticate}
use res_q_server.Access.{
  AuthUser, require_assignment_access, require_hospital_access, require_incident_access,
  require_resource_access, require_roles,
}
use res_q_server.Common.{Bool, List, Option, Result, Text, [], ok, some, ℕ, ◌>>=◌, ◌>>◌, ◌∷◌}
use res_q_server.Db.Rows.{Db, Role}

-- The guard of one row that follows the check of the role; `unguarded` where there is none.
pub data Own : Type 0 where
  unguarded incident assignment hospital resource : Own

pub record Rule : Type 0 where
  pub roles : List Role
  pub own : Own

-- incident.route.ts
pub data IncidentRoute : Type 0 where
  create_incident : IncidentRoute
  list_incidents : IncidentRoute
  get_incident : IncidentRoute
  update_incident : IncidentRoute
  approve_incident : IncidentRoute
  reject_incident : IncidentRoute
  cancel_incident : IncidentRoute
  update_incident_status : IncidentRoute
  calculate_priority : IncidentRoute
  recommend_resource : IncidentRoute
  list_decisions : IncidentRoute
  list_incident_assignments : IncidentRoute
  list_reoptimizations : IncidentRoute

unfoldable pub incident_rule : IncidentRoute → Rule
incident_rule IncidentRoute.create_incident = record {
  roles = Role.citizen ∷ Role.admin ∷ Role.coordinator ∷ Role.operator ∷ [];
  own = Own.unguarded;
}
incident_rule IncidentRoute.list_incidents = record {
  roles = Role.admin ∷ Role.coordinator ∷ Role.citizen ∷ Role.operator ∷ [];
  own = Own.unguarded;
}
incident_rule IncidentRoute.get_incident = record {
  roles = Role.admin ∷ Role.coordinator ∷ Role.citizen ∷ Role.operator ∷ [];
  own = Own.incident;
}
incident_rule IncidentRoute.update_incident = record {
  roles = Role.citizen ∷ Role.admin ∷ Role.coordinator ∷ [];
  own = Own.incident;
}
incident_rule IncidentRoute.approve_incident = record {
  roles = Role.admin ∷ Role.coordinator ∷ [];
  own = Own.unguarded;
}
incident_rule IncidentRoute.reject_incident = record {
  roles = Role.admin ∷ Role.coordinator ∷ [];
  own = Own.unguarded;
}
incident_rule IncidentRoute.cancel_incident = record {
  roles = Role.citizen ∷ Role.admin ∷ Role.coordinator ∷ [];
  own = Own.incident;
}
incident_rule IncidentRoute.update_incident_status = record {
  roles = Role.admin ∷ Role.coordinator ∷ [];
  own = Own.unguarded;
}
incident_rule IncidentRoute.calculate_priority = record {
  roles = Role.admin ∷ Role.coordinator ∷ [];
  own = Own.unguarded;
}
incident_rule IncidentRoute.recommend_resource = record {
  roles = Role.admin ∷ Role.coordinator ∷ [];
  own = Own.unguarded;
}
incident_rule IncidentRoute.list_decisions = record {
  roles = Role.admin ∷ Role.coordinator ∷ [];
  own = Own.unguarded;
}
incident_rule IncidentRoute.list_incident_assignments = record {
  roles = Role.admin ∷ Role.coordinator ∷ Role.citizen ∷ Role.operator ∷ [];
  own = Own.incident;
}
incident_rule IncidentRoute.list_reoptimizations = record {
  roles = Role.admin ∷ Role.coordinator ∷ [];
  own = Own.unguarded;
}

-- assignment.route.ts, and assignmentReoptimizeRouter of reoptimization.route.ts
pub data AssignmentRoute : Type 0 where
  create_assignment : AssignmentRoute
  list_assignments : AssignmentRoute
  get_assignment : AssignmentRoute
  complete_assignment : AssignmentRoute
  cancel_assignment : AssignmentRoute
  reoptimize_assignment : AssignmentRoute

unfoldable pub assignment_rule : AssignmentRoute → Rule
assignment_rule AssignmentRoute.create_assignment = record {
  roles = Role.admin ∷ Role.coordinator ∷ [];
  own = Own.unguarded;
}
assignment_rule AssignmentRoute.list_assignments = record {
  roles = Role.admin ∷ Role.coordinator ∷ Role.operator ∷ Role.citizen ∷ [];
  own = Own.unguarded;
}
assignment_rule AssignmentRoute.get_assignment = record {
  roles = Role.admin ∷ Role.coordinator ∷ Role.operator ∷ Role.citizen ∷ [];
  own = Own.assignment;
}
assignment_rule AssignmentRoute.complete_assignment = record {
  roles = Role.admin ∷ Role.coordinator ∷ Role.operator ∷ [];
  own = Own.assignment;
}
assignment_rule AssignmentRoute.cancel_assignment = record {
  roles = Role.admin ∷ Role.coordinator ∷ [];
  own = Own.unguarded;
}
assignment_rule AssignmentRoute.reoptimize_assignment = record {
  roles = Role.admin ∷ Role.coordinator ∷ [];
  own = Own.unguarded;
}

-- hospital.route.ts
pub data HospitalRoute : Type 0 where
  create_hospital : HospitalRoute
  list_hospitals : HospitalRoute
  get_hospital : HospitalRoute
  get_availability : HospitalRoute
  update_hospital : HospitalRoute
  assign_hospital_operator : HospitalRoute
  remove_hospital_operator : HospitalRoute
  deactivate_hospital : HospitalRoute

unfoldable pub hospital_rule : HospitalRoute → Rule
hospital_rule HospitalRoute.create_hospital = record {
  roles = Role.admin ∷ [];
  own = Own.unguarded;
}
hospital_rule HospitalRoute.list_hospitals = record {
  roles = Role.admin ∷ Role.coordinator ∷ Role.operator ∷ [];
  own = Own.unguarded;
}
hospital_rule HospitalRoute.get_hospital = record {
  roles = Role.admin ∷ Role.coordinator ∷ Role.operator ∷ [];
  own = Own.hospital;
}
hospital_rule HospitalRoute.get_availability = record {
  roles = Role.admin ∷ Role.coordinator ∷ Role.operator ∷ [];
  own = Own.hospital;
}
hospital_rule HospitalRoute.update_hospital = record {
  roles = Role.admin ∷ Role.operator ∷ [];
  own = Own.hospital;
}
hospital_rule HospitalRoute.assign_hospital_operator = record {
  roles = Role.admin ∷ [];
  own = Own.unguarded;
}
hospital_rule HospitalRoute.remove_hospital_operator = record {
  roles = Role.admin ∷ [];
  own = Own.unguarded;
}
hospital_rule HospitalRoute.deactivate_hospital = record {
  roles = Role.admin ∷ [];
  own = Own.unguarded;
}

-- resource.route.ts
pub data ResourceRoute : Type 0 where
  create_resource : ResourceRoute
  list_resources : ResourceRoute
  get_resource : ResourceRoute
  update_resource : ResourceRoute
  assign_resource_operator : ResourceRoute
  remove_resource_operator : ResourceRoute
  deactivate_resource : ResourceRoute

unfoldable pub resource_rule : ResourceRoute → Rule
resource_rule ResourceRoute.create_resource = record {
  roles = Role.admin ∷ [];
  own = Own.unguarded;
}
resource_rule ResourceRoute.list_resources = record {
  roles = Role.admin ∷ Role.coordinator ∷ Role.operator ∷ [];
  own = Own.unguarded;
}
resource_rule ResourceRoute.get_resource = record {
  roles = Role.admin ∷ Role.coordinator ∷ Role.operator ∷ [];
  own = Own.resource;
}
resource_rule ResourceRoute.update_resource = record {
  roles = Role.admin ∷ Role.operator ∷ [];
  own = Own.resource;
}
resource_rule ResourceRoute.assign_resource_operator = record {
  roles = Role.admin ∷ [];
  own = Own.unguarded;
}
resource_rule ResourceRoute.remove_resource_operator = record {
  roles = Role.admin ∷ [];
  own = Own.unguarded;
}
resource_rule ResourceRoute.deactivate_resource = record {
  roles = Role.admin ∷ [];
  own = Own.unguarded;
}

-- user.route.ts
pub data UserRoute : Type 0 where
  create_user : UserRoute
  list_users : UserRoute
  get_user : UserRoute
  update_user : UserRoute
  deactivate_user : UserRoute
  activate_user : UserRoute

unfoldable pub user_rule : UserRoute → Rule
user_rule UserRoute.create_user = record { roles = Role.admin ∷ []; own = Own.unguarded }
user_rule UserRoute.list_users = record { roles = Role.admin ∷ []; own = Own.unguarded }
user_rule UserRoute.get_user = record { roles = Role.admin ∷ []; own = Own.unguarded }
user_rule UserRoute.update_user = record { roles = Role.admin ∷ []; own = Own.unguarded }
user_rule UserRoute.deactivate_user = record { roles = Role.admin ∷ []; own = Own.unguarded }
user_rule UserRoute.activate_user = record { roles = Role.admin ∷ []; own = Own.unguarded }

-- audit.route.ts, decision.route.ts and reoptimization.route.ts
pub data LogRoute : Type 0 where
  list_audit_logs : LogRoute
  get_decision : LogRoute
  get_reoptimization : LogRoute

unfoldable pub log_rule : LogRoute → Rule
log_rule LogRoute.list_audit_logs = record {
  roles = Role.admin ∷ Role.coordinator ∷ [];
  own = Own.unguarded;
}
log_rule LogRoute.get_decision = record {
  roles = Role.admin ∷ Role.coordinator ∷ [];
  own = Own.unguarded;
}
log_rule LogRoute.get_reoptimization = record {
  roles = Role.admin ∷ Role.coordinator ∷ [];
  own = Own.unguarded;
}

pub data Route : Type 0 where
  incidents : IncidentRoute → Route
  assignments : AssignmentRoute → Route
  hospitals : HospitalRoute → Route
  resources : ResourceRoute → Route
  users : UserRoute → Route
  logs : LogRoute → Route

unfoldable pub rule_of : Route → Rule
unfolding incident_rule assignment_rule hospital_rule resource_rule user_rule log_rule
rule_of (Route.incidents r) = incident_rule r
rule_of (Route.assignments r) = assignment_rule r
rule_of (Route.hospitals r) = hospital_rule r
rule_of (Route.resources r) = resource_rule r
rule_of (Route.users r) = user_rule r
rule_of (Route.logs r) = log_rule r

unfoldable pub guard_row : Own → Db → Option ℕ → Option AuthUser → Result (Unit {0})
guard_row Own.unguarded db param user = ok tt
guard_row Own.incident db param user = require_incident_access db param user
guard_row Own.assignment db param user = require_assignment_access db param user
guard_row Own.hospital db param user = require_hospital_access db param user
guard_row Own.resource db param user = require_resource_access db param user

-- What a call passes before its body is looked at: the token, the role and the row.
unfoldable pub enter :
    Jwt
    → (has_secret : Bool) (now : ℕ) → (header : Option Text) → Db
    → Route
    → (param : Option ℕ) → Result AuthUser
unfolding rule_of guard_row authenticate require_roles
enter jwt has_secret now header db route param = do
  user ← authenticate jwt has_secret now header
  require_roles (rule_of route).roles (some user)
  guard_row (rule_of route).own db param (some user)
  ok user
