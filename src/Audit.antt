-- ===== src/Audit.antt =====
-- src/modules/audit: audit.controller.ts and audit.service.ts.
pub mod Scope
use res_q_server.Db.Rows.{
  AuditLog, Db, Role, assignment_status_eq, hospital_status_eq, incident_status_eq, level_eq,
  resource_status_eq, role_eq, user_status_eq,
}
use res_q_server.Common.{
  Bool, Error, List, Option, Result, Text, [], app, codes, err, false, filter, forbidden,
  if◌then◌else◌, includes, nat_eq, none, ok, some, text_eq, to_upper, true, ℕ, ◌&&◌, ◌==◌, ◌>>=◌,
  ◌>>◌, ◌∷◌,
}
use res_q_server.Pagination.{PaginatedResult, PaginationParams, matches, paginate}
use res_q_server.Db.Tables.{
  assignment_row, hospital_row, incident_row, outbox_row, resource_row, user_row,
}

pub record AuditFilters : Type 0 where
  pub actor_id : Option ℕ
  pub entity : Option Text
  pub entity_id : Option ℕ

-- COORDINATOR_ALLOWED_ENTITIES
abbrev pub coordinator_allowed_entities : List Text
coordinator_allowed_entities = codes "INCIDENT" ∷ codes "ASSIGNMENT" ∷ []

-- A parameter that is the empty text counts as not given.
abbrev pub given : Option Text → Option Text
given none = none
given (some []) = none
given (some (c ∷ cs)) = some (c ∷ cs)

-- `where['entity']`: the entity that is asked for, or else the restriction
abbrev pub entity_passes : (entity : Option Text) → (entity_filter : List Text) → Text → Bool
entity_passes none [] entity = true
entity_passes none (e ∷ es) entity = includes (e ∷ es) entity
entity_passes (some wanted) entity_filter entity = entity == wanted

abbrev pub entity_id_passes : Option ℕ → Option ℕ → Bool
entity_id_passes none id = true
entity_id_passes (some wanted) none = false
entity_id_passes (some wanted) (some id) = id == wanted

-- getAuditLogs of the service, newest first as `orderBy` asks
unfoldable pub list_audit_logs :
    Db → AuditFilters → (entity_filter : List Text) → PaginationParams → PaginatedResult AuditLog
unfolding paginate
list_audit_logs db filters entity_filter pagination = paginate pagination (
    filter
      (λ (l : AuditLog).
        matches filters.actor_id l.actor_id
        && entity_id_passes filters.entity_id l.entity_id
        && entity_passes filters.entity entity_filter l.entity)
      db.audit_logs)

-- The part of the controller that is for a COORDINATOR: the restriction, or 403.
unfoldable pub scope_of : Role → (entity : Option Text) → Result (List Text)
scope_of Role.coordinator none = ok coordinator_allowed_entities
scope_of Role.coordinator (some entity) =
    if includes coordinator_allowed_entities (to_upper entity) then ok [] else err (app forbidden)
scope_of role entity = ok []

-- getAuditLogs of the controller
unfoldable pub get_audit_logs :
    Db → Role → AuditFilters → PaginationParams → Result (PaginatedResult AuditLog)
unfolding scope_of list_audit_logs
get_audit_logs db role query pagination = do
  let filters = record query { entity = given query.entity }
  entity_filter ← scope_of role filters.entity
  ok (list_audit_logs db filters entity_filter pagination)

-- writeAuditLog: a fault of the database is only logged.
unfoldable pub write_audit_log : AuditLog → (fault : Option Error) → Db → Db
write_audit_log log none db = record db { audit_logs = log ∷ db.audit_logs }
write_audit_log log (some e) db = db
