-- ===== src/Middleware/RestGate.antt =====
-- `rest_rate_limit_middleware` of middleware/rate_limit.rs and `ProjectId::new` of
-- crates/embyr-core/src/domain/project.rs: the gate before the REST handlers.
use embyr_rs.Base.{
  ℕ, ◌==◌, leb, ◌&&◌, ◌||◌, [], ◌∷◌, length, all, Bool, false, Option, none, some, if◌then◌else◌,
  ok, err,
}
use embyr_rs.Base.Text.{Text, codes, text_eq, is_ascii_digit}
use embyr_rs.Base.Dict.{Dict, get}
use embyr_rs.AccessControl.Scan.{span}
use embyr_rs.Middleware.RateLimit.{
  Quantity, Clock, RateLimitInfo, RateLimiter, Verdict, PgOutcome, check,
}

-- What becomes of a REST request: the handler, or one of the three refusals.
pub data RestOutcome (A : Type 0) : Type 0 where
  next : RestOutcome A
  malformed_response : RestOutcome A
  invalid_api_key : RestOutcome A
  rejection : RateLimitInfo A → RestOutcome A

abbrev pub is_ascii_lowercase : ℕ → Bool
is_ascii_lowercase c = leb b'a' c && leb c b'z'

-- `ProjectId::new(…).is_ok()`. The length of what passes is its length in bytes.
unfoldable pub is_valid_project_id : Text → Bool
is_valid_project_id [] = false
is_valid_project_id (c ∷ s) =
    leb (length (c ∷ s)) 63
    && is_ascii_lowercase c
    && all (λ d. is_ascii_lowercase d || is_ascii_digit d || (d == b'-')) s

-- `trim_start_matches(':')`, of a missing action the empty text.
abbrev pub action_of : Option Text → Text
action_of none = []
action_of (some s) = (span (λ c. c == b':') s).1

abbrev pub of_verdict : {A : Type 0} → Verdict A → RestOutcome A
of_verdict (ok info) = next
of_verdict (err info) = rejection info

module _ {A T : Type 0} ⦃quantity : Quantity A⦄ ⦃clock : Clock A T⦄ where
  -- The request of a project, by its id and the action.
  unfoldable pub rest_checked :
      T → Text → Text → PgOutcome A → RateLimiter A T → RestOutcome A × RateLimiter A T
  rest_checked now project_id action outcome limiter =
      let (result, label, after) = check now project_id outcome limiter in
      if is_valid_project_id project_id
      then (of_verdict result, after)
      else if text_eq action (codes "signInWithCustomToken")
      then (malformed_response, limiter)
      else (invalid_api_key, limiter)

  unfoldable pub rest_rate_limit_middleware :
      T → Dict Text → PgOutcome A → RateLimiter A T → RestOutcome A × RateLimiter A T
  rest_rate_limit_middleware now params outcome limiter = elim (get (codes "project_id") params) [
    | none ↦ (next, limiter)
    | some project_id ↦
        rest_checked now project_id (action_of (get (codes "action") params)) outcome limiter
  ]
