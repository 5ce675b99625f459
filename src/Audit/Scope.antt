-- ===== src/Audit/Scope.antt =====
-- What a COORDINATOR sees of the audit log.
use mathlib.Core.Path.{subst}
use res_q_server.Audit.{
  AuditFilters, coordinator_allowed_entities, entity_passes, get_audit_logs, scope_of,
  entity_id_passes, given, list_audit_logs,
}
use res_q_server.Db.Rows.{
  AuditLog, Db, Role, assignment_status_eq, hospital_status_eq, incident_status_eq, level_eq,
  resource_status_eq, role_eq, user_status_eq,
}
use res_q_server.Pagination.{PaginatedResult, PaginationParams, matches, paginate, skip_of}
use res_q_server.Common.{
  All, List, Text, includes, nat_eq, ok, text_eq, to_upper, true, ◌≡◌, >>=-ok, All-drop, All-mono,
  All-passes, All-take, Bool, Bool-cases, Option, arith, codes, inl, inr, none, refl, some, sym,
  text_beq, text_beq_iff, ◌&&◌,
}
use res_q_server.Db.Tables.{
  assignment_row, hospital_row, incident_row, outbox_row, resource_row, user_row,
}

abbrev pub IsAllowed : AuditLog → Type 0
IsAllowed l = includes coordinator_allowed_entities (to_upper l.entity) ≡ true

upper_incident :
    (x : Text) → codes "INCIDENT" ≡ x → includes coordinator_allowed_entities (to_upper x) ≡ true
upper_incident x e = subst (λ y. includes coordinator_allowed_entities (to_upper y) ≡ true) e refl

upper_assignment :
    (x : Text) → codes "ASSIGNMENT" ≡ x → includes coordinator_allowed_entities (to_upper x) ≡ true
upper_assignment x e = subst (λ y. includes coordinator_allowed_entities (to_upper y) ≡ true) e refl

-- The entities that are already in upper case.
allowed-upper :
    (x : Text)
    → includes coordinator_allowed_entities x ≡ true
    → includes coordinator_allowed_entities (to_upper x) ≡ true
allowed-upper x e = elim (Bool-cases (text_beq (codes "INCIDENT") x)) [
  | inl first ↦ upper_incident x ((text_beq_iff _ x).0 first)
  | inr other ↦ elim (Bool-cases (text_beq (codes "ASSIGNMENT") x)) [
    | inl second ↦ upper_assignment x ((text_beq_iff _ x).0 second)
    | inr neither ↦ let refused = rw (other, neither) at e in cc
  ]
]

scope-allowed :
    (entity : Option Text) (scope : List Text) (x : Text)
    → scope_of Role.coordinator entity ≡ ok scope
    → entity_passes entity scope x ≡ true
    → includes coordinator_allowed_entities (to_upper x) ≡ true
unfolding scope_of
scope-allowed none scope x e passes =
    let same : coordinator_allowed_entities ≡ scope = cc in
    allowed-upper x (subst (λ l. entity_passes none l x ≡ true) (sym same) passes)
scope-allowed (some wanted) scope x e passes =
    elim (Bool-cases (includes coordinator_allowed_entities (to_upper wanted))) [
      | inl allowed ↦
          subst (λ y. includes coordinator_allowed_entities (to_upper y) ≡ true)
            (sym ((text_beq_iff x wanted).0 passes)) allowed
      | inr refused ↦ let no_scope = rw refused at e in cc
    ]

third : (a b c : Bool) → (a && b && c) ≡ true → c ≡ true
third a b c e = ground arith

listed-IsAllowed :
    (db : Db) (filters : AuditFilters) (scope : List Text) (p : PaginationParams)
    → ((l : AuditLog) → entity_passes filters.entity scope l.entity ≡ true → IsAllowed l)
    → All IsAllowed (list_audit_logs db filters scope p).items
unfolding list_audit_logs paginate
listed-IsAllowed db filters scope p allowed = All-take p.limit IsAllowed _ (
    All-drop (skip_of p) IsAllowed _ (
      All-mono _ IsAllowed _
        (λ (l : AuditLog) kept. allowed l (
          third (matches filters.actor_id l.actor_id)
            (entity_id_passes filters.entity_id l.entity_id)
            (entity_passes filters.entity scope l.entity) kept))
        (All-passes _ db.audit_logs)))

-- Whatever a COORDINATOR asks for, every log that the answer shows is one whose entity, in upper case,
-- is INCIDENT or ASSIGNMENT.
pub get_audit_logs-IsAllowed :
    (db : Db) (query : AuditFilters) (p : PaginationParams) {result : PaginatedResult AuditLog}
    → get_audit_logs db Role.coordinator query p ≡ ok result
    → All IsAllowed result.items
unfolding get_audit_logs
get_audit_logs-IsAllowed db query p {result} e =
    let filters = record query { entity = given query.entity } in
    let (scope, s, e1) = >>=-ok (scope_of Role.coordinator filters.entity) _ e in
    let answer : list_audit_logs db filters scope p ≡ result = cc in
    subst (λ (r : PaginatedResult AuditLog). All IsAllowed r.items) answer
      (listed-IsAllowed db filters scope p (λ l. scope-allowed filters.entity scope l.entity s))
