-- ===== src/Middleware/RateLimit.antt =====
-- middleware/rate_limit.rs: token buckets in the process, and the decision on the database's answers.
-- The lock around the buckets makes each check one step; the clock's reading is an argument.
pub mod Invariant
pub mod Buckets
pub mod Burst
pub mod Wait
use embyr_rs.Base.{
  ℕ, ◌==◌, leb, ◌&&◌, ◌||◌, List, ◌∷◌, length, all, Bool, true, false, not, Option, none, some, [],
  if◌then◌else◌, Result, ok, err, ◌>>=◌,
}
use embyr_rs.Base.Text.{Text, codes, text_eq, is_ascii_digit}
use embyr_rs.AccessControl.Scan.{span}
use embyr_rs.Base.Dict.{Dict, get, insert}

-- What the source uses of `f64`, `millis a r` being `(a / r * 1000.0) as u64`, and of `Instant`:
-- `duration_since` in seconds.
pub record Quantity (A : Type 0) : Type 0 where
  pub zero : A
  pub one : A
  pub add : A → A → A
  pub sub : A → A → A
  pub mul : A → A → A
  pub min : A → A → A
  pub le : A → A → Bool
  pub lt : A → A → Bool
  pub millis : A → A → ℕ

pub record Clock (A T : Type 0) : Type 0 where
  pub seconds : T → T → A

pub record TokenBucket (A T : Type 0) : Type 0 where
  pub capacity : A
  pub tokens : A
  pub refill_rate : A
  pub last_refill : T

pub record RateLimitInfo (A : Type 0) : Type 0 where
  pub remaining : A
  pub limit : A
  pub reset_ms : ℕ

-- `has_pool` says whether there is a connection pool.
pub record RateLimiter (A T : Type 0) : Type 0 where
  pub buckets : Dict (TokenBucket A T)
  pub capacity : A
  pub refill_rate : A
  pub enabled : Bool
  pub has_pool : Bool

abbrev pub Verdict : Type 0 → Type 0
Verdict A = Result (RateLimitInfo A) (RateLimitInfo A)

-- An error of the database.
pub data PgError : Type 0 where
  pg_error : PgError

-- What the queries of `check_pg` answer: the tokens left by the update, whether the row exists, and
-- the tokens of a row that was not updated.
pub record PgAnswers (A : Type 0) : Type 0 where
  pub allowed : Result PgError (Option A)
  pub row_exists : Result PgError Bool
  pub current : Option A

pub data PgOutcome (A : Type 0) : Type 0 where
  answered : PgAnswers A → PgOutcome A
  timed_out : PgOutcome A

-- The label of the metric that `check` counts.
unfoldable pub project_label : Text → Bool → Text
project_label project_id known_existing = if known_existing then project_id else codes "unconfirmed"

module _ {A : Type 0} ⦃quantity : Quantity A⦄ where
  abbrev pub reset_after : A → A → ℕ
  reset_after refill_rate remaining =
      if quantity.lt remaining (quantity.one)
      then quantity.millis (quantity.sub (quantity.one) remaining) refill_rate
      else 0

  abbrev pub or_zero : Option A → A
  or_zero none = quantity.zero
  or_zero (some tokens) = tokens

  -- The branches of `check_pg` where no row was updated; the row that the first one inserts is the
  -- database's.
  unfoldable pub not_updated : A → A → Bool → Option A → Verdict A × Bool
  not_updated capacity refill_rate false current = (
    ok (record {
      remaining = quantity.sub capacity (quantity.one);
      limit = capacity;
      reset_ms = 0;
    }),
    false,
  )
  not_updated capacity refill_rate true current = (
    err (record {
      remaining = or_zero current;
      limit = capacity;
      reset_ms = reset_after refill_rate (or_zero current);
    }),
    true,
  )

  unfoldable pub pg_verdict : A → A → Option A → PgAnswers A → Result PgError (Verdict A × Bool)
  pg_verdict capacity refill_rate (some remaining) answers = ok (
    ok (record {
      remaining = remaining;
      limit = capacity;
      reset_ms = reset_after refill_rate remaining;
    }),
    true,
  )
  pg_verdict capacity refill_rate none answers = do
    row_exists ← answers.row_exists
    ok (not_updated capacity refill_rate row_exists (answers.current))

module _ {A T : Type 0} ⦃quantity : Quantity A⦄ ⦃clock : Clock A T⦄ where
  -- `TokenBucket::new`
  abbrev pub new_bucket : A → A → T → TokenBucket A T
  new_bucket capacity refill_rate now = record {
    capacity = capacity;
    tokens = capacity;
    refill_rate = refill_rate;
    last_refill = now;
  }

  abbrev pub refilled : T → TokenBucket A T → A
  refilled now bucket =
      quantity.min
        (quantity.add (bucket.tokens)
          (quantity.mul (clock.seconds now (bucket.last_refill)) (bucket.refill_rate)))
        (bucket.capacity)

  abbrev pub with_tokens : A → T → TokenBucket A T → TokenBucket A T
  with_tokens tokens now bucket = record {
    capacity = bucket.capacity;
    tokens = tokens;
    refill_rate = bucket.refill_rate;
    last_refill = now;
  }

  unfoldable pub try_consume : T → TokenBucket A T → Bool × TokenBucket A T
  try_consume now bucket =
      if quantity.le (quantity.one) (refilled now bucket)
      then (true, with_tokens (quantity.sub (refilled now bucket) (quantity.one)) now bucket)
      else (false, with_tokens (refilled now bucket) now bucket)

  -- `entry(…).or_insert_with(…)`
  abbrev pub entry_or_new : Option (TokenBucket A T) → A → A → T → TokenBucket A T
  entry_or_new (some bucket) capacity refill_rate now = bucket
  entry_or_new none capacity refill_rate now = new_bucket capacity refill_rate now

  abbrev pub capped : A → TokenBucket A T → TokenBucket A T
  capped capacity bucket = record {
    capacity = bucket.capacity;
    tokens = if quantity.lt capacity (bucket.tokens) then capacity else bucket.tokens;
    refill_rate = bucket.refill_rate;
    last_refill = bucket.last_refill;
  }

  abbrev pub is_present : Option (TokenBucket A T) → Bool
  is_present none = false
  is_present (some bucket) = true

  -- The result for the bucket after `try_consume`.
  unfoldable pub verdict : A → A → Bool × TokenBucket A T → Verdict A
  verdict capacity refill_rate (true, bucket) = ok (record {
    remaining = bucket.tokens;
    limit = capacity;
    reset_ms = reset_after refill_rate (bucket.tokens);
  })
  verdict capacity refill_rate (false, bucket) = err (record {
    remaining = bucket.tokens;
    limit = capacity;
    reset_ms =
        quantity.millis (quantity.sub (quantity.one) (quantity.min (bucket.tokens) (quantity.one)))
          refill_rate;
  })

  abbrev pub with_buckets : Dict (TokenBucket A T) → RateLimiter A T → RateLimiter A T
  with_buckets buckets limiter = record {
    buckets = buckets;
    capacity = limiter.capacity;
    refill_rate = limiter.refill_rate;
    enabled = limiter.enabled;
    has_pool = limiter.has_pool;
  }

  -- The bucket that a check of the key works on, and what it makes of it.
  unfoldable pub consume : T → Text → RateLimiter A T → Bool × TokenBucket A T
  consume now key limiter = try_consume now (
      capped (limiter.capacity)
        (entry_or_new (get key (limiter.buckets)) (limiter.capacity) (limiter.refill_rate) now))

  unfoldable pub check_in_process :
      T → Text → RateLimiter A T → (Verdict A × Bool) × RateLimiter A T
  check_in_process now project_id limiter = (
    (
      verdict (limiter.capacity) (limiter.refill_rate) (consume now project_id limiter),
      is_present (get project_id (limiter.buckets)),
    ),
    with_buckets (insert project_id ((consume now project_id limiter).1) (limiter.buckets)) limiter,
  )

  unfoldable pub check_pg : RateLimiter A T → PgAnswers A → Result PgError (Verdict A × Bool)
  check_pg limiter answers = do
    allowed ← answers.allowed
    pg_verdict (limiter.capacity) (limiter.refill_rate) allowed answers

  abbrev pub or_in_process :
      Result PgError (Verdict A × Bool)
      → T
      → Text
      → RateLimiter A T
      → (Verdict A × Bool) × RateLimiter A T
  or_in_process (ok result) now project_id limiter = (result, limiter)
  or_in_process (err e) now project_id limiter = check_in_process now project_id limiter

  -- The database first, if there is a pool.
  unfoldable pub check_shared :
      T → Text → Bool → PgOutcome A → RateLimiter A T → (Verdict A × Bool) × RateLimiter A T
  check_shared now project_id true (answered answers) limiter =
      or_in_process (check_pg limiter answers) now project_id limiter
  check_shared now project_id true timed_out limiter = check_in_process now project_id limiter
  check_shared now project_id false outcome limiter = check_in_process now project_id limiter

  unfoldable pub check_inner :
      T → Text → PgOutcome A → RateLimiter A T → (Verdict A × Bool) × RateLimiter A T
  check_inner now project_id outcome limiter =
      if limiter.enabled then check_shared now project_id (limiter.has_pool) outcome limiter else (
        (
          ok (record { remaining = limiter.capacity; limit = limiter.capacity; reset_ms = 0 }),
          false,
        ),
        limiter,
      )

  unfoldable pub check :
      T → Text → PgOutcome A → RateLimiter A T → Verdict A × Text × RateLimiter A T
  check now project_id outcome limiter =
      let ((result, known_existing), after) = check_inner now project_id outcome limiter in
      (result, project_label project_id known_existing, after)
