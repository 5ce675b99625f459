-- ===== src/Decision/Recommendation/Assignable.antt =====
-- A recommendation and the assignment that is made from it.
use mathlib.Core.Path.{subst}
use res_q_server.Reoptimization.Strategy.{candidate_of}
use res_q_server.Common.{
  All, Any, Any-All, Bool-cases, List, [], ap, arith, count_if, inl, inr, map, nat_beq, nat_eq, ok,
  some, text_eq, ℕ, ◌∷◌, ◌≡◌, ◌≢◌, Option, none, refl, sym, true, ◌<◌, ◌≤◌, All-map,
}
use res_q_server.Db.Rows.{
  Assignment, Db, Resource, ResourceStatus, assignment_status_eq, hospital_status_eq,
  incident_status_eq, level_eq, resource_status_eq, role_eq, user_status_eq, DecisionLog, Incident,
  IncidentStatus, Place,
}
use res_q_server.Decision.Allocation.Choice.{
  Distinct, IsChoice, IsSuitable, recommend_resource-IsChoice,
}
use res_q_server.Assignment.Defs.{CreateInput, Supply, create_tx, is_active_on, is_active_for}
use res_q_server.Db.Tables.{
  assignment_row, find_unique, hospital_row, incident_row, outbox_row, resource_row, user_row,
}
use res_q_server.Decision.Allocation.{Candidate, AllocationResult, Speed, recommend_resource}
use res_q_server.Decision.Recommendation.{
  recommend_resource_for_incident, recommendation_input, recommendation_log,
}
use res_q_server.Decision.Matching.{is_type_match}
use res_q_server.Assignment.Eligibility.{create_tx_iff, IsEligible}

-- The row of a candidate is found under its id.
candidate_found :
    (c : Candidate) (rs : List Resource)
    → Distinct (map candidate_of rs)
    → Any (λ r. r ≡ c) (map candidate_of rs)
    → (r : Resource) × (find_unique c.id rs ≡ some r) × (candidate_of r ≡ c)
unfolding find_unique
candidate_found c [] d h = elim h [ ]
candidate_found c (r ∷ rs) d (inl here) =
    (r, ground (arith, ap (λ (x : Candidate). x.id) here), here)
candidate_found c (r ∷ rs) d (inr there) =
    let (row, found, same) = candidate_found c rs d.1 there in
    let (o, e, other) = Any-All (λ x. x ≡ c) (λ x. r.id ≢ x.id) (map candidate_of rs) there d.0 in
    let differs : r.id ≢ c.id = λ x. other (cc (x, e)) in (row, ground (arith, found), same)

-- A row that is found has what all rows have.
found-All :
    (P : Resource → Type 0) (id : ℕ) (rs : List Resource) (r : Resource)
    → find_unique id rs ≡ some r
    → All P rs
    → P r
unfolding find_unique
found-All P id [] r e h = absurd (ground arith)
found-All P id (x ∷ rs) r e h = elim (Bool-cases (nat_beq x.id id)) [
  | inl e' ↦ let same : x ≡ r = ground arith in subst P same h.0
  | inr e' ↦ found-All P id rs r (ground arith) h.1
]

-- A resource that is AVAILABLE is in no ACTIVE assignment.
abbrev pub IsFree : Db → Resource → Type 0
IsFree db r = r.status ≡ ResourceStatus.available → count_if (is_active_on r.id) db.assignments ≡ 0

-- An assignment that the transaction would make.
abbrev pub CanAssign : Db → Supply → CreateInput → Type 0
CanAssign db supply input =
    (a : Assignment) × (db' : Db) × (create_tx db db supply input ≡ ok (a, db'))

module _ (distance : Place → Place → ℕ) (speed : Speed) (db : Db) (i : Incident) where
  -- What a recommendation for the incident says about its assignment.
  abbrev pub IsAssignable : Db → Supply → Option Candidate → Type 0
  IsAssignable after supply none =
      (resource_id : ℕ)
      → ¬ CanAssign after supply (record { incident_id = i.id; resource_id = resource_id })
  IsAssignable after supply (some c) =
      CanAssign after supply (record { incident_id = i.id; resource_id = c.id })

  -- Where nothing is suitable, no resource passes the checks of an assignment.
  unsuitable-IsAssignable :
      (supply : Supply) (logs : List DecisionLog)
      → find_unique i.id db.incidents ≡ some i
      → IsChoice distance (recommendation_input speed i db) (map candidate_of db.resources) none
      → IsAssignable (record db { decisions = logs }) supply none
  unfolding recommendation_input
  unsuitable-IsAssignable supply logs found none_suits = λ resource_id can.
      let input : CreateInput = record { incident_id = i.id; resource_id = resource_id } in
      let h = (create_tx_iff (record db { decisions = logs }) supply input).0 can in
      let same : h.incident ≡ i = ground (arith, h.incident_found, found) in
      found-All (λ r. ¬ IsSuitable (recommendation_input speed i db) (candidate_of r)) resource_id
        db.resources h.resource h.resource_found (All-map candidate_of _ db.resources none_suits)
        (record {
          is_available = h.is_available;
          matches =
              subst (λ (x : Incident). is_type_match h.resource.type x.resource_requirements ≡ true)
                same h.suits;
          carries =
              subst (λ (x : Incident). x.affected_people ≤ h.resource.capacity) same h.carries;
        })

  -- A suitable resource passes them.
  suitable-IsEligible :
      (logs : List DecisionLog) (c : Candidate)
      → Distinct (map candidate_of db.resources)
      → find_unique i.id db.incidents ≡ some i
      → i.status ≡ IncidentStatus.approved
      → count_if (is_active_for i.id) db.assignments ≡ 0
      → All (IsFree db) db.resources
      → Any (λ r. r ≡ c) (map candidate_of db.resources)
      → IsSuitable (recommendation_input speed i db) c
      → IsEligible
          (record db { decisions = logs })
          (record { incident_id = i.id; resource_id = c.id })
  unfolding recommendation_input
  suitable-IsEligible logs c d found approved idle free listed suitable =
      let (r, row, same) = candidate_found c db.resources d listed in
      let s : IsSuitable (recommendation_input speed i db) (candidate_of r) =
        subst (IsSuitable (recommendation_input speed i db)) (sym same) suitable in
      let key : r.id ≡ c.id = ap (λ (x : Candidate). x.id) same in
      record {
        incident = i;
        incident_found = found;
        is_approved = approved;
        resource = r;
        resource_found = row;
        is_available = s.is_available;
        suits = s.matches;
        carries = s.carries;
        resource_free =
            subst (λ id. count_if (is_active_on id) db.assignments ≡ 0) key
              (found-All (IsFree db) c.id db.resources r row free s.is_available);
        incident_free = idle;
      }

  choice-IsAssignable :
      (supply : Supply) (logs : List DecisionLog) (chosen : Option Candidate)
      → Distinct (map candidate_of db.resources)
      → find_unique i.id db.incidents ≡ some i
      → i.status ≡ IncidentStatus.approved
      → count_if (is_active_for i.id) db.assignments ≡ 0
      → All (IsFree db) db.resources
      → IsChoice distance (recommendation_input speed i db) (map candidate_of db.resources) chosen
      → IsAssignable (record db { decisions = logs }) supply chosen
  choice-IsAssignable supply logs none d found approved idle free none_suits =
      unsuitable-IsAssignable supply logs found none_suits
  choice-IsAssignable supply logs (some c) d found approved idle free best =
      (create_tx_iff (record db { decisions = logs }) supply _).1
        (suitable-IsEligible logs c d found approved idle free best.listed best.suitable)

  -- For an APPROVED incident in no ACTIVE assignment, at a positive speed, with distinct ids of
  -- resources and every AVAILABLE resource in no ACTIVE assignment, the recommendation succeeds.
  -- createAssignment then succeeds with the recommended resource, on the tables that the
  -- recommendation leaves, if nothing else changes them; and where no resource is recommended it
  -- fails with every resource.
  pub recommend_resource_for_incident-IsAssignable :
      (supply : Supply)
      → 0 < speed.num
      → Distinct (map candidate_of db.resources)
      → find_unique i.id db.incidents ≡ some i
      → i.status ≡ IncidentStatus.approved
      → count_if (is_active_for i.id) db.assignments ≡ 0
      → All (IsFree db) db.resources
      → (result : AllocationResult) × (after : Db) × (recommend_resource_for_incident distance speed
            i.id db
          ≡ ok (result, after))
        × IsAssignable after supply result.selected_resource
  unfolding recommend_resource_for_incident recommendation_input
  recommend_resource_for_incident-IsAssignable supply fast d found approved idle free =
      let input = recommendation_input speed i db in
      let result = recommend_resource distance input in
      (
        result,
        record db { decisions = recommendation_log i.id result ∷ db.decisions },
        rw found refl,
        choice-IsAssignable supply (recommendation_log i.id result ∷ db.decisions)
            result.selected_resource d found approved idle free
            (recommend_resource-IsChoice distance input fast d),
      )
