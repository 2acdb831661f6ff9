-- ===== src/Middleware/RateLimit/Buckets.antt =====
-- The bucket that a check in the process works on, and what the check makes of it.
use embyr_rs.Base.{Bool-cases, Option-cases, ◌≡◌, inl, inr, refl}
use embyr_rs.Base.Text.{Text}
use embyr_rs.Base.Dict.{get, get-insert_self}
use embyr_rs.Middleware.RateLimit.{
  Quantity, Clock, TokenBucket, RateLimiter, refilled, try_consume, entry_or_new, capped, consume,
  check_in_process,
}
use embyr_rs.Middleware.RateLimit.Invariant.{Within}

module _ {A T : Type 0} ⦃quantity : Quantity A⦄ ⦃clock : Clock A T⦄ where
  -- The bucket of the key, or a new one, with no more than the capacity.
  abbrev pub bucket_of : T → Text → RateLimiter A T → TokenBucket A T
  bucket_of now key l =
      capped (l.capacity) (entry_or_new (get key (l.buckets)) (l.capacity) (l.refill_rate) now)

  -- What stays, and the instant that is recorded.
  abbrev pub Consumed : T → TokenBucket A T → TokenBucket A T → Type 0
  Consumed now b d =
      (d.capacity ≡ b.capacity) × (d.refill_rate ≡ b.refill_rate) × (d.last_refill ≡ now)

  try_consume-Consumed : (now : T) (b : TokenBucket A T) → Consumed now b ((try_consume now b).1)
  unfolding try_consume
  try_consume-Consumed now b = elim (Bool-cases (quantity.le (quantity.one) (refilled now b))) [
    | inl e ↦ rw e (refl, refl, refl)
    | inr e ↦ rw e (refl, refl, refl)
  ]

  pub consume-Consumed :
      (now : T) (key : Text) (l : RateLimiter A T)
      → Consumed now (bucket_of now key l) ((consume now key l).1)
  unfolding consume
  consume-Consumed now key l = try_consume-Consumed now (bucket_of now key l)

  pub bucket_of-capacity :
      (now : T) (key : Text) (l : RateLimiter A T)
      → Within l
      → (bucket_of now key l).capacity ≡ l.capacity
  bucket_of-capacity now key l (number, fits) = elim (Option-cases (get key (l.buckets))) [
    | inl e ↦ rw e refl
    | inr (b, e) ↦ rw e ((fits key b e).0)
  ]

  -- The next check of the key, at whatever instant, works on what this one left.
  pub bucket_of-check_in_process :
      (now s : T) (key : Text) (l : RateLimiter A T)
      → bucket_of s key ((check_in_process now key l).1)
        ≡ capped (l.capacity) ((consume now key l).1)
  unfolding check_in_process
  bucket_of-check_in_process now s key l =
      rw (get-insert_self key ((consume now key l).1) (l.buckets)) refl
