-- ===== src/Middleware/RateLimit/Burst.antt =====
-- How many checks of one project are allowed at one instant.
use embyr_rs.Base.{
  ℕ, zero, suc, ◌+◌, ◌≤◌, Bool, true, Bool-cases, ◌≡◌, ◌↔◌, inl, inr, sym, ap, ◌∙◌, subst, arith,
  ok, err,
}
use embyr_rs.Base.Text.{Text}
use embyr_rs.Middleware.RateLimit.{
  Quantity, Clock, TokenBucket, RateLimiter, Verdict, refilled, try_consume, capped, verdict,
  consume, check_in_process,
}
use embyr_rs.Middleware.RateLimit.Invariant.{Within}
use embyr_rs.Middleware.RateLimit.Buckets.{
  bucket_of, consume-Consumed, bucket_of-capacity, bucket_of-check_in_process,
}

-- Facts of `f64`, where an amount is no NaN and below 2^53, and `whole` its whole part, zero below
-- zero. For an amount: it is at least one exactly if its whole part is; taking one away leaves an
-- amount with one less; and a minimum with it is an amount with no more than it, whatever the other
-- side is. What no time makes with a finite rate adds nothing; and no time passes between an instant
-- and itself.
pub record IsCounted (A T : Type 0) ⦃quantity : Quantity A⦄ ⦃clock : Clock A T⦄ : Type 0 where
  pub is_amount : A → Bool
  pub is_finite : A → Bool
  pub whole : A → ℕ
  pub whole_one :
      (a : A) → is_amount a ≡ true → (quantity.le (quantity.one) a ≡ true) ↔ (1 ≤ whole a)
  pub sub_amount : (a : A) → is_amount a ≡ true → is_amount (quantity.sub a (quantity.one)) ≡ true
  pub whole_sub :
      (a : A)
      → is_amount a ≡ true
      → 1 ≤ whole a
      → whole (quantity.sub a (quantity.one)) + 1 ≡ whole a
  pub min_amount : (a b : A) → is_amount b ≡ true → is_amount (quantity.min a b) ≡ true
  pub whole_left :
      (a b : A) → is_amount a ≡ true → is_amount b ≡ true → whole (quantity.min a b) ≤ whole a
  pub whole_right : (a b : A) → is_amount b ≡ true → whole (quantity.min a b) ≤ whole b
  pub whole_lt : (a b : A) → is_amount b ≡ true → quantity.lt a b ≡ true → whole a ≤ whole b
  pub still_amount :
      (a r : A)
      → is_amount a ≡ true
      → is_finite r ≡ true
      → is_amount (quantity.add a (quantity.mul (quantity.zero) r)) ≡ true
  pub still :
      (a r : A)
      → is_amount a ≡ true
      → is_finite r ≡ true
      → whole (quantity.add a (quantity.mul (quantity.zero) r)) ≤ whole a
  pub no_time : (t : T) → clock.seconds t t ≡ quantity.zero

abbrev pub is_allowed : {A : Type 0} → Verdict A → ℕ
is_allowed (ok info) = 1
is_allowed (err info) = 0

module _ {A T : Type 0} ⦃quantity : Quantity A⦄ ⦃clock : Clock A T⦄ where
  -- The number of checks that are allowed, of `n` at one instant.
  abbrev pub burst : T → Text → ℕ → RateLimiter A T → ℕ
  burst now key zero l = 0
  burst now key (suc n) l =
      is_allowed ((check_in_process now key l).0.0)
      + burst now key n ((check_in_process now key l).1)

  module _ (laws : IsCounted A T) where
    -- The amounts of a bucket that the facts are about.
    abbrev IsSound : TokenBucket A T → Type 0
    IsSound b = (laws.is_amount (b.capacity) ≡ true) × (laws.is_finite (b.refill_rate) ≡ true)

    refilled_amount :
        (now : T) (b : TokenBucket A T) → IsSound b → laws.is_amount (refilled now b) ≡ true
    refilled_amount now b (c, r) = laws.min_amount _ (b.capacity) c

    verdict_count :
        (c r : A) (now : T) (b : TokenBucket A T)
        → IsSound b
        → is_allowed (verdict c r (try_consume now b)) + laws.whole (((try_consume now b).1).tokens)
          ≤ laws.whole (refilled now b)
    unfolding verdict try_consume
    verdict_count c r now b s = elim (Bool-cases (quantity.le (quantity.one) (refilled now b))) [
      | inl e ↦
          let amount = refilled_amount now b s in
          let some_whole = (laws.whole_one (refilled now b) amount).0 e in
          let taken = laws.whole_sub (refilled now b) amount some_whole in rw e (omega arith)
      | inr e ↦ rw e (omega arith)
    ]

    consumed_amount :
        (now : T) (b : TokenBucket A T)
        → IsSound b
        → laws.is_amount (((try_consume now b).1).tokens) ≡ true
    unfolding try_consume
    consumed_amount now b s = elim (Bool-cases (quantity.le (quantity.one) (refilled now b))) [
      | inl e ↦ rw e (laws.sub_amount (refilled now b) (refilled_amount now b s))
      | inr e ↦ rw e (refilled_amount now b s)
    ]

    capped_amount :
        (c : A) (b : TokenBucket A T)
        → laws.is_amount c ≡ true
        → laws.is_amount (b.tokens) ≡ true
        → (laws.is_amount ((capped c b).tokens) ≡ true)
          × (laws.whole ((capped c b).tokens) ≤ laws.whole (b.tokens))
    capped_amount c b a t = elim (Bool-cases (quantity.lt c (b.tokens))) [
      | inl e ↦ rw e (a, laws.whole_lt c (b.tokens) t e)
      | inr e ↦ rw e (t, omega arith)
    ]

    -- Nothing is refilled at the same instant.
    refilled_again :
        (now : T) (b : TokenBucket A T)
        → IsSound b
        → laws.is_amount (b.tokens) ≡ true
        → b.last_refill ≡ now
        → laws.whole (refilled now b) ≤ laws.whole (b.tokens)
    refilled_again now b (c, r) t e =
        let amount = laws.still_amount (b.tokens) (b.refill_rate) t r in
        let left = laws.whole_left _ (b.capacity) amount c in
        let nothing = laws.still (b.tokens) (b.refill_rate) t r in
        let time : clock.seconds now (b.last_refill) ≡ quantity.zero =
          ap (λ t. clock.seconds now t) e ∙ laws.no_time now in
        subst
          (λ s.
            laws.whole
              (quantity.min (quantity.add (b.tokens) (quantity.mul s (b.refill_rate))) (b.capacity))
            ≤ laws.whole (b.tokens))
          (sym time) (omega (arith, left, nothing))

    -- What is left for the key after a check of it, and that the facts are about it again.
    left_after :
        (now : T) (key : Text) (l : RateLimiter A T)
        → laws.is_amount (l.capacity) ≡ true
        → IsSound (bucket_of now key l)
        → IsSound (capped (l.capacity) ((consume now key l).1))
          × (laws.whole (refilled now (capped (l.capacity) ((consume now key l).1)))
              ≤ laws.whole (((consume now key l).1).tokens))
    unfolding consume
    left_after now key l c s =
        let d = (try_consume now (bucket_of now key l)).1 in
        let (same, rate, at) = consume-Consumed now key l in
        let sound : IsSound (capped (l.capacity) d) = (
          subst (λ c. laws.is_amount c ≡ true) (sym same) (s.0),
          subst (λ r. laws.is_finite r ≡ true) (sym rate) (s.1),
        ) in
        let (amount, few) =
          capped_amount (l.capacity) d c (consumed_amount now (bucket_of now key l) s) in
        let again = refilled_again now (capped (l.capacity) d) sound amount at in
        (sound, omega (arith, few, again))

    counted :
        (now : T) (key : Text) (l : RateLimiter A T)
        → IsSound (bucket_of now key l)
        → is_allowed ((check_in_process now key l).0.0)
            + laws.whole (((consume now key l).1).tokens)
          ≤ laws.whole (refilled now (bucket_of now key l))
    unfolding check_in_process consume
    counted now key l s = verdict_count (l.capacity) (l.refill_rate) now (bucket_of now key l) s

    burst_le :
        (now : T) (key : Text) (n : ℕ) (l : RateLimiter A T)
        → laws.is_amount (l.capacity) ≡ true
        → IsSound (bucket_of now key l)
        → burst now key n l ≤ laws.whole (refilled now (bucket_of now key l))
    unfolding check_in_process
    burst_le now key zero l c s = omega arith
    burst_le now key (suc n) l c s =
        let next = bucket_of-check_in_process now now key l in
        let (sound, left) = left_after now key l c s in
        let rest =
          burst_le now key n ((check_in_process now key l).1) c (subst IsSound (sym next) sound) in
        let taken = counted now key l s in
        let rest' =
          subst
            (λ b. burst now key n ((check_in_process now key l).1) ≤ laws.whole (refilled now b))
            next rest in
        omega (arith, rest', left, taken)

    -- However many checks of a project are made in the process at one instant, no more are allowed
    -- than the whole part of the capacity, if the limiter is within its capacity, that is an amount
    -- (no NaN and below 2^53), and the rate of the project's bucket is finite.
    pub burst-Within :
        (now : T) (key : Text) (n : ℕ) (l : RateLimiter A T)
        → Within l
        → laws.is_amount (l.capacity) ≡ true
        → laws.is_finite ((bucket_of now key l).refill_rate) ≡ true
        → burst now key n l ≤ laws.whole (l.capacity)
    burst-Within now key n l w c r =
        let same = bucket_of-capacity now key l w in
        let amount = subst (λ c. laws.is_amount c ≡ true) (sym same) c in
        let few = burst_le now key n l c (amount, r) in
        let full =
          laws.whole_right
            (quantity.add ((bucket_of now key l).tokens) (
              quantity.mul (clock.seconds now ((bucket_of now key l).last_refill))
                ((bucket_of now key l).refill_rate)))
            ((bucket_of now key l).capacity) amount in
        let same' = ap laws.whole same in omega (arith, few, full, same')
