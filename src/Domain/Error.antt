-- ===== src/Domain/Error.antt =====
-- crates/embyr-core/src/error.rs.
use embyr_rs.Base.Text.{Text}

pub data CoreError : Type 0 where
  project_not_found document_not_found already_exists : Text → CoreError
  occ_conflict transaction_not_found transaction_aborted : CoreError
  invalid_argument backend_unavailable failed_precondition permission_denied : Text → CoreError
  unauthenticated : CoreError
  resource_exhausted : Text → CoreError
