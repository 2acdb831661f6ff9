-- ===== src/Tests/Limits.antt =====
-- The rate limiter with whole tokens and whole seconds.
use embyr_rs.Base.{
  ℕ, ◌+◌, ◌-◌, ◌*◌, ◌≤◌, ltb, leb, Bool-cases, inl, inr, subst, true, Option, some, [], ◌∷◌, ◌≡◌,
  refl, arith, if◌then◌else◌, ok, err,
}
use embyr_rs.Base.Text.{codes, text_eq}
use embyr_rs.Base.Dict.{get, insert}
use embyr_rs.Middleware.RateLimit.{
  Quantity, Clock, TokenBucket, RateLimitInfo, RateLimiter, timed_out, try_consume, verdict,
  consume, check_in_process, check,
}
use embyr_rs.Middleware.RateLimit.Invariant.{IsQuantity, Fits, Within, check-Within, check-other}
use embyr_rs.Middleware.RateLimit.Burst.{IsCounted, burst, burst-Within}
use embyr_rs.Middleware.RateLimit.Wait.{IsRefilled, check_in_process-ok}

instance abbrev whole_quantity : Quantity ℕ
whole_quantity = record {
  zero = 0;
  one = 1;
  add = λ a b. a + b;
  sub = λ a b. a - b;
  mul = λ a b. a * b;
  min = λ a b. if leb a b then a else b;
  le = leb;
  lt = ltb;
  millis = λ a r. 1000 * a;
}

instance abbrev whole_clock : Clock ℕ ℕ
whole_clock = record { seconds = λ s t. s - t }

IsQuantity-whole : IsQuantity ℕ
IsQuantity-whole = record {
  le_trans = λ a b c p q. ground arith;
  min_le = λ a c p. ground arith;
  sub_le = λ a p. ground arith;
}

-- Amounts below 2^53, of which every one is whole.
abbrev whole_counted : IsCounted ℕ ℕ
whole_counted = record {
  is_amount = λ a. ltb a 9007199254740992;
  is_finite = λ r. true;
  whole = λ a. a;
  whole_one = λ a h. (λ p. ground arith, λ p. ground arith);
  sub_amount = λ a h. ground arith;
  whole_sub = λ a h p. omega arith;
  min_amount = λ a b h. ground arith;
  whole_left = λ a b h k. ground arith;
  whole_right = λ a b h. ground arith;
  whole_lt = λ a b h p. ground arith;
  still_amount = λ a r h k. let e : (a + 0 * r) ≡ a = omega arith in rw e h;
  still = λ a r h k. omega arith;
  no_time = λ t. omega arith;
}

abbrev whole_refilled : IsRefilled ℕ ℕ
whole_refilled = record {
  is_finite = λ r. true;
  one_le = λ a p. ground arith;
  sub_one = λ a p. ground arith;
  le_min = λ c a b p q. ground arith;
  le_add = λ c a b p q r. ground arith;
  zero_le = refl;
  zero_one = refl;
  gain = λ s t r p q. ground arith;
}

-- Two tokens, one more each second.
abbrev bucket : TokenBucket ℕ ℕ
bucket = record { capacity = 2; tokens = 0; refill_rate = 1; last_refill = 5 }

abbrev limiter : RateLimiter ℕ ℕ
limiter = record {
  buckets = (codes "demo", bucket) ∷ [];
  capacity = 2;
  refill_rate = 1;
  enabled = true;
  has_pool = true;
}

bucket_of_some : {b d : TokenBucket ℕ ℕ} → Path (Option (TokenBucket ℕ ℕ)) (some b) (some d) → b ≡ d
bucket_of_some h = cc

limiter-Within : Within limiter
unfolding get
limiter-Within = (
  refl,
  λ k b h. elim (Bool-cases (text_eq (codes "demo") k)) [
    | inl e ↦ subst (Fits 2) (bucket_of_some (rw e at h)) (refl, refl)
    | inr e ↦ let h' = rw e at h in cc
  ],
)

check-Within_example : Within ((check 9 (codes "demo") timed_out limiter).2)
check-Within_example =
    check-Within IsQuantity-whole 9 (codes "demo") timed_out limiter limiter-Within

check-other_example :
    get (codes "demo") ((check 9 (codes "else") timed_out limiter).2.buckets)
    ≡ get (codes "demo") (limiter.buckets)
check-other_example = check-other 9 (codes "else") (codes "demo") timed_out limiter refl

burst-Within_example : burst 9 (codes "demo") 5 limiter ≤ whole_counted.whole 2
unfolding get
burst-Within_example =
    burst-Within whole_counted 9 (codes "demo") 5 limiter limiter-Within refl refl

burst_run : burst 9 (codes "demo") 5 limiter ≡ 2
unfolding check_in_process consume try_consume verdict get insert
burst_run = refl

-- The check at 5 finds no token, and the one at 6 the token of the second between them.
refused_run :
    (check_in_process 5 (codes "demo") limiter).0.0
    ≡ err (record { remaining = 0; limit = 2; reset_ms = 1000 })
unfolding check_in_process consume try_consume verdict get insert
refused_run = refl

check_in_process-ok_example :
    (info : RateLimitInfo ℕ) × ((check_in_process 6
        (codes "demo")
        ((check_in_process 5 (codes "demo") limiter).1)).0.0
      ≡ ok info)
unfolding get
check_in_process-ok_example =
    check_in_process-ok whole_refilled 5 6 (codes "demo") limiter limiter-Within refl refl refl refl
      refl
