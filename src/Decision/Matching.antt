-- ===== src/Decision/Matching.antt =====
-- The requirement test of src/modules/decision/resource-allocation.engine.ts, which
-- assignment.service.ts, reoptimization.engine.ts and reoptimization.service.ts repeat inline.
use res_q_server.Common.{Bool, true, List, [], ◌∷◌, map, Text, to_upper, includes, nat_eq, text_eq}
use res_q_server.Db.Rows.{assignment_status_eq, incident_status_eq, resource_status_eq, role_eq}
use res_q_server.Db.Tables.{assignment_row, incident_row, outbox_row, resource_row, user_row}

unfoldable pub is_type_match : Text → List Text → Bool
is_type_match resource_type [] = true
is_type_match resource_type (r ∷ rest) = includes (map to_upper (r ∷ rest)) (to_upper resource_type)
