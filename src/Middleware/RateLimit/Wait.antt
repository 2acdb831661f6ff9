-- ===== src/Middleware/RateLimit/Wait.antt =====
-- The bucket after a check in the process and a wait.
use embyr_rs.Base.{Bool, true, Bool-cases, ◌≡◌, inl, inr, refl, sym, subst, ok}
use embyr_rs.Base.Text.{Text}
use embyr_rs.Middleware.RateLimit.{
  Quantity, Clock, TokenBucket, RateLimitInfo, RateLimiter, refilled, try_consume, capped, verdict,
  consume, check_in_process,
}
use embyr_rs.Middleware.RateLimit.Invariant.{Within}
use embyr_rs.Middleware.RateLimit.Buckets.{
  bucket_of, consume-Consumed, bucket_of-capacity, bucket_of-check_in_process,
}

-- Facts of the order and the sums of `f64`, no side of which is NaN where it is compared: what is at
-- least one is not negative, before one is taken away and after; a minimum is at least what both sides
-- are; a sum of what is not negative is at least either bound; and the seconds between two instants,
-- which are zero if the first is the earlier one, make nothing negative with a finite rate.
pub record IsRefilled (A T : Type 0) ⦃quantity : Quantity A⦄ ⦃clock : Clock A T⦄ : Type 0 where
  pub is_finite : A → Bool
  pub one_le : (a : A) → quantity.le (quantity.one) a ≡ true → quantity.le (quantity.zero) a ≡ true
  pub sub_one :
      (a : A)
      → quantity.le (quantity.one) a ≡ true
      → quantity.le (quantity.zero) (quantity.sub a (quantity.one)) ≡ true
  pub le_min :
      (c a b : A)
      → quantity.le c a ≡ true
      → quantity.le c b ≡ true
      → quantity.le c (quantity.min a b) ≡ true
  pub le_add :
      (c a b : A)
      → quantity.le (quantity.zero) a ≡ true
      → quantity.le (quantity.zero) c ≡ true
      → quantity.le c b ≡ true
      → quantity.le c (quantity.add a b) ≡ true
  pub zero_le : quantity.le (quantity.zero) (quantity.zero) ≡ true
  pub zero_one : quantity.le (quantity.zero) (quantity.one) ≡ true
  pub gain :
      (s t : T) (r : A)
      → quantity.le (quantity.zero) r ≡ true
      → is_finite r ≡ true
      → quantity.le (quantity.zero) (quantity.mul (clock.seconds s t) r) ≡ true

module _ {A T : Type 0} ⦃quantity : Quantity A⦄ ⦃clock : Clock A T⦄ (laws : IsRefilled A T) where
  capped_le :
      (c : A) (b : TokenBucket A T)
      → quantity.le (quantity.one) c ≡ true
      → quantity.le (quantity.zero) (b.tokens) ≡ true
      → quantity.le (quantity.zero) ((capped c b).tokens) ≡ true
  capped_le c b e z = elim (Bool-cases (quantity.lt c (b.tokens))) [
    | inl h ↦ rw h (laws.one_le c e)
    | inr h ↦ rw h z
  ]

  try_consume-ok :
      (c r : A) (s : T) (b : TokenBucket A T)
      → quantity.le (quantity.one) (refilled s b) ≡ true
      → (info : RateLimitInfo A) × (verdict c r (try_consume s b) ≡ ok info)
  unfolding verdict try_consume
  try_consume-ok c r s b e = rw e (_, refl)

  -- A check leaves no debt.
  consumed_le :
      (now : T) (b : TokenBucket A T)
      → quantity.le (quantity.zero) (refilled now b) ≡ true
      → quantity.le (quantity.zero) (((try_consume now b).1).tokens) ≡ true
  unfolding try_consume
  consumed_le now b z = elim (Bool-cases (quantity.le (quantity.one) (refilled now b))) [
    | inl e ↦ rw e (laws.sub_one (refilled now b) e)
    | inr e ↦ rw e z
  ]

  refilled_le :
      (c : A) (s : T) (b : TokenBucket A T)
      → quantity.le (quantity.zero) c ≡ true
      → quantity.le c (b.capacity) ≡ true
      → quantity.le (quantity.zero) (b.tokens) ≡ true
      → quantity.le c (quantity.mul (clock.seconds s (b.last_refill)) (b.refill_rate)) ≡ true
      → quantity.le c (refilled s b) ≡ true
  refilled_le c s b z full owes gained =
      laws.le_min c _ (b.capacity) (laws.le_add c (b.tokens) _ owes z gained) full

  -- The bucket that a check leaves has refilled by an instant at which the time since has made a token.
  waited :
      (now s : T) (c : A) (b d : TokenBucket A T)
      → d ≡ (try_consume now b).1
      → (d.capacity ≡ b.capacity) × (d.refill_rate ≡ b.refill_rate) × (d.last_refill ≡ now)
      → quantity.le (quantity.one) c ≡ true
      → quantity.le (quantity.one) (b.capacity) ≡ true
      → quantity.le (quantity.zero) (b.tokens) ≡ true
      → quantity.le (quantity.zero) (b.refill_rate) ≡ true
      → laws.is_finite (b.refill_rate) ≡ true
      → quantity.le (quantity.one) (quantity.mul (clock.seconds s now) (b.refill_rate)) ≡ true
      → quantity.le (quantity.one) (refilled s (capped c d)) ≡ true
  waited now s c b d same (capacity, rate, at) one full owes zero_le_rate finite enough =
      let gained = laws.gain now (b.last_refill) (b.refill_rate) zero_le_rate finite in
      let here =
        refilled_le (quantity.zero) now b (laws.zero_le) (laws.one_le (b.capacity) full) owes
          gained in
      let left =
        subst (λ d. quantity.le (quantity.zero) (d.tokens) ≡ true) (sym same)
          (consumed_le now b here) in
      refilled_le (quantity.one) s (capped c d) (laws.zero_one) (rw capacity full)
        (capped_le c d one left) (rw (at, rate) enough)

  -- After a check of a project at `now`, whatever its verdict, a check at an instant by which the time
  -- since `now` has made one token at the bucket's rate is allowed, if the limiter is within its
  -- capacity and that is one token at least, the bucket owed no token, and its rate is finite and not
  -- negative.
  pub check_in_process-ok :
      (now s : T) (key : Text) (l : RateLimiter A T)
      → Within l
      → quantity.le (quantity.one) (l.capacity) ≡ true
      → quantity.le (quantity.zero) ((bucket_of now key l).tokens) ≡ true
      → quantity.le (quantity.zero) ((bucket_of now key l).refill_rate) ≡ true
      → laws.is_finite ((bucket_of now key l).refill_rate) ≡ true
      → quantity.le
          (quantity.one)
          (quantity.mul (clock.seconds s now) ((bucket_of now key l).refill_rate))
        ≡ true
      → (info : RateLimitInfo A) × ((check_in_process s key ((check_in_process now key l).1)).0.0
          ≡ ok info)
  unfolding check_in_process consume
  check_in_process-ok now s key l w one owes rate finite enough =
      let b = bucket_of now key l in
      let full =
        subst (λ c. quantity.le (quantity.one) c ≡ true) (sym (bucket_of-capacity now key l w))
          one in
      let kept =
        waited now s (l.capacity) b ((try_consume now b).1) refl (consume-Consumed now key l) one
          full owes rate finite enough in
      rw (bucket_of-check_in_process now s key l)
        (try_consume-ok (l.capacity) (l.refill_rate) s _ kept)
