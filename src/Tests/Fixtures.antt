-- ===== src/Tests/Fixtures.antt =====
-- A small district: four users, two incidents, three resources.
use res_q_server.Common.{ℕ, Option, none, some, [], ◌∷◌, codes, if◌then◌else◌, nat_beq, Error}
use res_q_server.Assignment.Defs.{
  CreateInput, Supply, Surroundings, new_assignment, set_incident_status, set_resource_status,
}
use res_q_server.Assignment.Release.{release}
use res_q_server.Db.Rows.{
  Assignment, Db, DecisionType, Degrees, Incident, IncidentStatus, Level, OutboxStatus, Payload,
  Place, Resource, ResourceStatus, Role, User, UserStatus, AssignmentStatus, OutboxEvent, Hospital,
  HospitalStatus,
}
use res_q_server.Hospital.Defs.{UpdateHospitalInput}
use res_q_server.Access.{AuthUser}
use res_q_server.Decision.Allocation.{Speed}

abbrev pub citizen : User
citizen = record {
  id = 1;
  name = codes "citizen";
  email = codes "citizen@resq.org";
  password = codes "citizen-hash";
  role = Role.citizen;
  status = UserStatus.active;
}

abbrev pub chief : User
chief = record {
  id = 2;
  name = codes "chief";
  email = codes "chief@resq.org";
  password = codes "chief-hash";
  role = Role.coordinator;
  status = UserStatus.active;
}

abbrev pub root : User
root = record {
  id = 4;
  name = codes "root";
  email = codes "root@resq.org";
  password = codes "root-hash";
  role = Role.admin;
  status = UserStatus.active;
}

abbrev pub square : Place
square = record { latitude = Degrees.north 23810000; longitude = Degrees.north 90412000 }

abbrev pub harbour : Place
harbour = record { latitude = Degrees.north 23700000; longitude = Degrees.north 90375000 }

-- An APPROVED incident that asks for a fire truck.
abbrev pub fire : Incident
fire = record {
  id = 10;
  severity = Level.high;
  status = IncidentStatus.approved;
  time_sensitivity = Level.critical;
  affected_people = 5;
  place = square;
  environmental_condition = some (codes "Major fire");
  resource_requirements = codes "fire_truck" ∷ [];
  priority_score = none;
  created_by_id = 1;
}

-- A PENDING report.
abbrev pub flood : Incident
flood = record {
  id = 11;
  severity = Level.medium;
  status = IncidentStatus.pending;
  time_sensitivity = Level.high;
  affected_people = 40;
  place = harbour;
  environmental_condition = none;
  resource_requirements = [];
  priority_score = none;
  created_by_id = 1;
}

abbrev pub truck : Resource
truck = record {
  id = 20;
  name = codes "Truck 1";
  type = codes "FIRE_TRUCK";
  status = ResourceStatus.available;
  place = square;
  capacity = 6;
  operator_id = none;
}

abbrev pub far_truck : Resource
far_truck = record {
  id = 21;
  name = codes "Truck 2";
  type = codes "FIRE_TRUCK";
  status = ResourceStatus.available;
  place = harbour;
  capacity = 8;
  operator_id = none;
}

abbrev pub empty : Db
empty = record {
  users = [];
  incidents = [];
  resources = [];
  assignments = [];
  decisions = [];
  reoptimizations = [];
  outbox = [];
  hospitals = [];
  audit_logs = [];
}

abbrev pub district : Db
district = record empty {
  users = citizen ∷ chief ∷ root ∷ [];
  incidents = fire ∷ flood ∷ [];
  resources = truck ∷ far_truck ∷ [];
}

abbrev pub supply : Supply
supply = record { assignment_id = 30; event_id = 40; now = 1000 }

abbrev pub later : Supply
later = record { assignment_id = 31; event_id = 41; now = 2000 }

abbrev pub dispatch : CreateInput
dispatch = record { incident_id = 10; resource_id = 20 }

abbrev pub dispatched : Assignment
dispatched = new_assignment supply dispatch

-- The district after the truck was sent to the fire.
abbrev pub deployed : Db
deployed = record district {
  incidents = set_incident_status IncidentStatus.assigned fire ∷ flood ∷ [];
  resources = set_resource_status ResourceStatus.busy truck ∷ far_truck ∷ [];
  assignments = dispatched ∷ [];
  decisions =
      record {
        incident_id = 10;
        selected_resource_id = some 20;
        decision_type = DecisionType.resource_assignment;
        priority_score = none;
      }
      ∷ [];
  outbox =
      record {
        event_id = 40;
        payload = Payload.assignment_created 30 10 20;
        status = OutboxStatus.pending;
        attempts = 0;
      }
      ∷ [];
}

-- The truck breaks down on its way.
abbrev pub broken : Db
broken = record deployed {
  resources = set_resource_status ResourceStatus.failed truck ∷ far_truck ∷ [];
}

-- No faults, and no other transactions.
abbrev pub calm : Surroundings
calm = record { fault = λ k. none; others = λ k db. db }

-- A distance for the tests: the places are 0 or 14 km apart.
abbrev distance_between : Degrees → Degrees → ℕ
distance_between (Degrees.north a) (Degrees.north b) = if nat_beq a b then 0 else 1400
distance_between _ _ = 1400

abbrev pub distance : Place → Place → ℕ
distance p q = distance_between p.latitude q.latitude

abbrev pub town_speed : Speed
town_speed = record { num = 40; den = 1 }

abbrev pub no_wait : ℕ → ℕ
no_wait k = 0

abbrev fails_first : ℕ → Option Error
fails_first k = if nat_beq k 1 then some Error.transient else none

-- The first attempt meets a fault that is worth a retry.
abbrev pub stormy : Surroundings
stormy = record { fault = fails_first; others = λ k db. db }

abbrev pub event_of : ℕ → Payload → OutboxEvent
event_of id payload = record {
  event_id = id;
  payload = payload;
  status = OutboxStatus.pending;
  attempts = 0;
}

-- The district after the truck's assignment was completed, and after it was cancelled.
abbrev pub completed : Db
completed = record deployed {
  incidents = set_incident_status IncidentStatus.in_progress fire ∷ flood ∷ [];
  resources = truck ∷ far_truck ∷ [];
  assignments = release AssignmentStatus.completed 2000 dispatched ∷ [];
  outbox =
      event_of 40 (Payload.assignment_created 30 10 20)
      ∷ event_of 41 (Payload.assignment_completed 30 10 20)
      ∷ [];
}

abbrev pub cancelled : Db
cancelled = record deployed {
  incidents = fire ∷ flood ∷ [];
  resources = truck ∷ far_truck ∷ [];
  assignments = release AssignmentStatus.cancelled 2000 dispatched ∷ [];
  outbox =
      event_of 40 (Payload.assignment_created 30 10 20)
      ∷ event_of 41 (Payload.assignment_cancelled 30 10 20)
      ∷ [];
}

-- The fire was called off, and the truck has broken down, while the assignment is ACTIVE.
abbrev pub ruined : Db
ruined = record broken {
  incidents = set_incident_status IncidentStatus.cancelled fire ∷ flood ∷ [];
}

-- The district with a hospital, which user 3 operates.
abbrev pub clinic : Hospital
clinic = record {
  id = 50;
  name = codes "Clinic";
  place = square;
  bed_capacity = 10;
  available_beds = 4;
  icu_capacity = 2;
  available_icu_beds = 1;
  status = HospitalStatus.operational;
  assigned_operator_id = some 3;
}

abbrev pub town : Db
town = record district { hospitals = clinic ∷ [] }

abbrev pub three_left : UpdateHospitalInput
three_left = record {
  name = none;
  latitude = none;
  longitude = none;
  bed_capacity = none;
  available_beds = some 3;
  icu_capacity = none;
  available_icu_beds = none;
  status = none;
  assigned_operator_id = none;
}

abbrev pub admin : AuthUser
admin = record { user_id = 4; role = Role.admin }
