-- ===== src/Db/Rows.antt =====
-- prisma/schema.prisma: the enumerations and models, one record for each row type.
use res_q_server.Common.{ℕ, ◌≡◌, ◌↔◌, Bool, true, Option, List, arith, Text, Eq, nat_beq}

pub data IncidentStatus : Type 0 where
  pending approved rejected assigned in_progress completed cancelled : IncidentStatus

pub data AssignmentStatus : Type 0 where
  pending active completed cancelled : AssignmentStatus

pub data ResourceStatus : Type 0 where
  available busy unavailable maintenance failed : ResourceStatus

pub data Role : Type 0 where
  admin coordinator operator citizen : Role

-- LOW, MEDIUM, HIGH, CRITICAL: the severities, time sensitivities and risk levels
pub data Level : Type 0 where
  low medium high critical : Level

pub data UserStatus : Type 0 where
  active inactive : UserStatus

pub data HospitalStatus : Type 0 where
  operational limited closed : HospitalStatus

pub data Trigger : Type 0 where
  resource_failure resource_unavailable resource_maintenance : Trigger
  access_condition_change higher_priority_incident capacity_change : Trigger

abbrev pub incident_rank : IncidentStatus → ℕ
incident_rank IncidentStatus.pending = 0
incident_rank IncidentStatus.approved = 1
incident_rank IncidentStatus.rejected = 2
incident_rank IncidentStatus.assigned = 3
incident_rank IncidentStatus.in_progress = 4
incident_rank IncidentStatus.completed = 5
incident_rank IncidentStatus.cancelled = 6

abbrev pub assignment_rank : AssignmentStatus → ℕ
assignment_rank AssignmentStatus.pending = 0
assignment_rank AssignmentStatus.active = 1
assignment_rank AssignmentStatus.completed = 2
assignment_rank AssignmentStatus.cancelled = 3

abbrev pub resource_rank : ResourceStatus → ℕ
resource_rank ResourceStatus.available = 0
resource_rank ResourceStatus.busy = 1
resource_rank ResourceStatus.unavailable = 2
resource_rank ResourceStatus.maintenance = 3
resource_rank ResourceStatus.failed = 4

abbrev pub role_rank : Role → ℕ
role_rank Role.admin = 0
role_rank Role.coordinator = 1
role_rank Role.operator = 2
role_rank Role.citizen = 3

abbrev pub user_status_rank : UserStatus → ℕ
user_status_rank UserStatus.active = 0
user_status_rank UserStatus.inactive = 1

abbrev pub hospital_rank : HospitalStatus → ℕ
hospital_rank HospitalStatus.operational = 0
hospital_rank HospitalStatus.limited = 1
hospital_rank HospitalStatus.closed = 2

abbrev pub level_rank : Level → ℕ
level_rank Level.low = 0
level_rank Level.medium = 1
level_rank Level.high = 2
level_rank Level.critical = 3

abbrev pub user_status_beq : UserStatus → UserStatus → Bool
user_status_beq a b = nat_beq (user_status_rank a) (user_status_rank b)

abbrev pub hospital_status_beq : HospitalStatus → HospitalStatus → Bool
hospital_status_beq a b = nat_beq (hospital_rank a) (hospital_rank b)

abbrev pub level_beq : Level → Level → Bool
level_beq a b = nat_beq (level_rank a) (level_rank b)

abbrev pub incident_status_beq : IncidentStatus → IncidentStatus → Bool
incident_status_beq a b = nat_beq (incident_rank a) (incident_rank b)

abbrev pub assignment_status_beq : AssignmentStatus → AssignmentStatus → Bool
assignment_status_beq a b = nat_beq (assignment_rank a) (assignment_rank b)

abbrev pub resource_status_beq : ResourceStatus → ResourceStatus → Bool
resource_status_beq a b = nat_beq (resource_rank a) (resource_rank b)

abbrev pub role_beq : Role → Role → Bool
role_beq a b = nat_beq (role_rank a) (role_rank b)

pub incident_status_beq_iff : (a b : IncidentStatus) → (incident_status_beq a b ≡ true) ↔ (a ≡ b)
incident_status_beq_iff a b = ground arith

pub assignment_status_beq_iff :
    (a b : AssignmentStatus) → (assignment_status_beq a b ≡ true) ↔ (a ≡ b)
assignment_status_beq_iff a b = ground arith

pub resource_status_beq_iff : (a b : ResourceStatus) → (resource_status_beq a b ≡ true) ↔ (a ≡ b)
resource_status_beq_iff a b = ground arith

pub role_beq_iff : (a b : Role) → (role_beq a b ≡ true) ↔ (a ≡ b)
role_beq_iff a b = ground arith

pub user_status_beq_iff : (a b : UserStatus) → (user_status_beq a b ≡ true) ↔ (a ≡ b)
user_status_beq_iff a b = ground arith

pub hospital_status_beq_iff : (a b : HospitalStatus) → (hospital_status_beq a b ≡ true) ↔ (a ≡ b)
hospital_status_beq_iff a b = ground arith

pub level_beq_iff : (a b : Level) → (level_beq a b ≡ true) ↔ (a ≡ b)
level_beq_iff a b = ground arith

instance abbrev pub user_status_eq : Eq UserStatus
user_status_eq = record { equals = user_status_beq; equals_iff = user_status_beq_iff }

instance abbrev pub hospital_status_eq : Eq HospitalStatus
hospital_status_eq = record { equals = hospital_status_beq; equals_iff = hospital_status_beq_iff }

instance abbrev pub level_eq : Eq Level
level_eq = record { equals = level_beq; equals_iff = level_beq_iff }

instance abbrev pub incident_status_eq : Eq IncidentStatus
incident_status_eq = record { equals = incident_status_beq; equals_iff = incident_status_beq_iff }

instance abbrev pub assignment_status_eq : Eq AssignmentStatus
assignment_status_eq = record {
  equals = assignment_status_beq;
  equals_iff = assignment_status_beq_iff;
}

instance abbrev pub resource_status_eq : Eq ResourceStatus
resource_status_eq = record { equals = resource_status_beq; equals_iff = resource_status_beq_iff }

instance abbrev pub role_eq : Eq Role
role_eq = record { equals = role_beq; equals_iff = role_beq_iff }

-- A coordinate in millionths of a degree; `south` is a negative one.
pub data Degrees : Type 0 where
  north south : ℕ → Degrees

pub record Place : Type 0 where
  pub latitude : Degrees
  pub longitude : Degrees

pub record User : Type 0 where
  pub id : ℕ
  pub name : Text
  pub email : Text
  pub password : Text  -- its hash
  pub role : Role
  pub status : UserStatus

pub record Hospital : Type 0 where
  pub id : ℕ
  pub name : Text
  pub place : Place
  pub bed_capacity : ℕ
  pub available_beds : ℕ
  pub icu_capacity : ℕ
  pub available_icu_beds : ℕ
  pub status : HospitalStatus
  pub assigned_operator_id : Option ℕ

pub record AuditLog : Type 0 where
  pub actor_id : ℕ
  pub action : Text
  pub entity : Text
  pub entity_id : Option ℕ

pub record Incident : Type 0 where
  pub id : ℕ
  pub severity : Level
  pub status : IncidentStatus
  pub time_sensitivity : Level
  pub affected_people : ℕ
  pub place : Place
  pub environmental_condition : Option Text
  pub resource_requirements : List Text
  pub priority_score : Option ℕ  -- in hundredths
  pub created_by_id : ℕ

pub record Resource : Type 0 where
  pub id : ℕ
  pub name : Text
  pub type : Text
  pub status : ResourceStatus
  pub place : Place
  pub capacity : ℕ
  pub operator_id : Option ℕ

pub record Assignment : Type 0 where
  pub id : ℕ
  pub incident_id : ℕ
  pub resource_id : ℕ
  pub status : AssignmentStatus
  pub released_at : Option ℕ

pub data DecisionType : Type 0 where
  priority_calculation resource_recommendation resource_assignment : DecisionType

pub record DecisionLog : Type 0 where
  pub incident_id : ℕ
  pub selected_resource_id : Option ℕ
  pub decision_type : DecisionType
  pub priority_score : Option ℕ

pub record ReoptimizationLog : Type 0 where
  pub incident_id : ℕ
  pub assignment_id : ℕ
  pub trigger : Trigger
  pub previous_resource_id : ℕ
  pub new_resource_id : Option ℕ
  pub replaced : Bool

-- src/events/event.types.ts, with the payload fields that a handler reads.
pub data Payload : Type 0 where
  incident_created : (incident_id : ℕ) → Payload
  incident_updated : (incident_id : ℕ) → Payload
  priority_calculated : (incident_id score : ℕ) → Payload
  resource_status_changed : (resource_id : ℕ) (previous new : ResourceStatus) → Payload
  resource_failure_detected : (resource_id : ℕ) (assignment_id : Option ℕ) → Payload
  assignment_created : (assignment_id incident_id resource_id : ℕ) → Payload
  assignment_completed : (assignment_id incident_id resource_id : ℕ) → Payload
  assignment_cancelled : (assignment_id incident_id resource_id : ℕ) → Payload
  reoptimization_requested : (incident_id assignment_id : ℕ) (trigger : Trigger) → Payload
  reoptimization_completed : (incident_id assignment_id : ℕ) (reoptimized : Bool) → Payload
  unsupported : Payload

pub data OutboxStatus : Type 0 where
  pending published failed : OutboxStatus

pub record OutboxEvent : Type 0 where
  pub event_id : ℕ
  pub payload : Payload
  pub status : OutboxStatus
  pub attempts : ℕ

pub record Db : Type 0 where
  pub users : List User
  pub incidents : List Incident
  pub resources : List Resource
  pub hospitals : List Hospital
  pub assignments : List Assignment
  pub decisions : List DecisionLog
  pub reoptimizations : List ReoptimizationLog
  pub outbox : List OutboxEvent
  pub audit_logs : List AuditLog
