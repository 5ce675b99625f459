-- ===== src/ErrorHandler.antt =====
-- src/middlewares/errorHandler.ts: the status and the code of the answer to an error; the texts are
-- left out.
pub mod Emails
use res_q_server.Common.{
  Error, app, conflict, if◌then◌else◌, nat_eq, not_found, row_not_found, text_eq, unique_violation,
  ℕ, ◌==◌,
}
use res_q_server.Db.Rows.{
  assignment_status_eq, hospital_status_eq, incident_status_eq, level_eq, resource_status_eq,
  role_eq, user_status_eq,
}
use res_q_server.Db.Tables.{
  assignment_row, hospital_row, incident_row, outbox_row, resource_row, user_row,
}

pub data ErrorCode : Type 0 where
  validation_error authentication_error authorization_error not_found_error : ErrorCode
  conflict_error dependency_timeout dependency_unavailable rate_limited : ErrorCode
  database_error internal_error : ErrorCode

-- What reaches the handler: an error of a service, the two other classes of AppError, and a Prisma
-- error with another code.
pub data Thrown : Type 0 where
  service : Error → Thrown
  timed_out circuit_open prisma_other : Thrown

-- resolveErrorCode, by the status
unfoldable pub resolve_error_code : ℕ → ErrorCode
resolve_error_code status =
    if status == 400
    then ErrorCode.validation_error
    else if status == 401
    then ErrorCode.authentication_error
    else if status == 403
    then ErrorCode.authorization_error
    else if status == 404
    then ErrorCode.not_found_error
    else if status == 409
    then ErrorCode.conflict_error
    else if status == 429
    then ErrorCode.rate_limited
    else if status == 503
    then ErrorCode.dependency_unavailable
    else if status == 504
    then ErrorCode.dependency_timeout
    else ErrorCode.internal_error

-- errorHandler. `transient` and `fatal` are errors that are neither AppErrors nor known Prisma ones.
unfoldable pub handle_error : Thrown → ℕ × ErrorCode
unfolding resolve_error_code
handle_error (Thrown.service (app status)) = (status, resolve_error_code status)
handle_error (Thrown.service (unique_violation target)) = (conflict, ErrorCode.conflict_error)
handle_error (Thrown.service row_not_found) = (not_found, ErrorCode.not_found_error)
handle_error (Thrown.service Error.transient) = (500, ErrorCode.internal_error)
handle_error (Thrown.service Error.fatal) = (500, ErrorCode.internal_error)
handle_error Thrown.timed_out = (504, ErrorCode.dependency_timeout)
handle_error Thrown.circuit_open = (503, ErrorCode.dependency_unavailable)
handle_error Thrown.prisma_other = (500, ErrorCode.database_error)
