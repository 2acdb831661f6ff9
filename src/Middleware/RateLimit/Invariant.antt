-- ===== src/Middleware/RateLimit/Invariant.antt =====
-- What every check keeps: no bucket holds more than the limiter's capacity, and no check touches
-- another project's bucket.
use embyr_rs.Base.{
  Bool, true, false, Bool-cases, Option-cases, Option, some, ◌≡◌, ◌⊎◌, inl, inr, refl, sym, ap, ◌∙◌,
  subst, if◌then◌else◌, Result, ok, err,
}
use embyr_rs.Base.Text.{Text, text_eq}
use embyr_rs.Base.Dict.{Dict, get, insert, get-insert}
use embyr_rs.Middleware.RateLimit.{
  Quantity, Clock, TokenBucket, RateLimiter, PgError, Verdict, PgOutcome, answered, timed_out,
  refilled, try_consume, consume, check_in_process, check_pg, or_in_process, check_shared,
  check_inner, check,
}

-- Facts of the arithmetic of `f64`: the order is transitive, a minimum with a number is at most that
-- number, and taking one away from a number of at least one does not make it larger.
pub record IsQuantity (A : Type 0) ⦃quantity : Quantity A⦄ : Type 0 where
  pub le_trans :
      (a b c : A) → quantity.le a b ≡ true → quantity.le b c ≡ true → quantity.le a c ≡ true
  pub min_le : (a c : A) → quantity.le c c ≡ true → quantity.le (quantity.min a c) c ≡ true
  pub sub_le :
      (a : A)
      → quantity.le (quantity.one) a ≡ true
      → quantity.le (quantity.sub a (quantity.one)) a ≡ true

module _ {A T : Type 0} ⦃quantity : Quantity A⦄ ⦃clock : Clock A T⦄ where
  -- The bucket has the limiter's capacity, and no more tokens than that.
  abbrev pub Fits : A → TokenBucket A T → Type 0
  Fits capacity b = (b.capacity ≡ capacity) × (quantity.le (b.tokens) capacity ≡ true)

  -- The capacity is a number, and every bucket fits it.
  abbrev pub Within : RateLimiter A T → Type 0
  Within l =
      (quantity.le (l.capacity) (l.capacity) ≡ true)
      × ((k : Text) (b : TokenBucket A T) → get k (l.buckets) ≡ some b → Fits (l.capacity) b)

  bucket_inj : {b d : TokenBucket A T} → Path (Option (TokenBucket A T)) (some b) (some d) → b ≡ d
  bucket_inj h = cc

  -- A check leaves the limiter as it is, or does what the check in the process does.
  abbrev After : T → Text → RateLimiter A T → RateLimiter A T → Type 0
  After now key l after = (after ≡ l) ⊎ (after ≡ (check_in_process now key l).1)

  or_in_process-After :
      (r : Result PgError (Verdict A × Bool)) (now : T) (key : Text) (l : RateLimiter A T)
      → After now key l ((or_in_process r now key l).1)
  or_in_process-After (ok r) now key l = inl refl
  or_in_process-After (err e) now key l = inr refl

  check_shared-After :
      (now : T) (key : Text) (pool : Bool) (o : PgOutcome A) (l : RateLimiter A T)
      → After now key l ((check_shared now key pool o l).1)
  unfolding check_shared
  check_shared-After now key true (answered a) l = or_in_process-After (check_pg l a) now key l
  check_shared-After now key true timed_out l = inr refl
  check_shared-After now key false o l = inr refl

  After-if :
      (now : T) (key : Text) (l : RateLimiter A T) (b : Bool)
      (x y : (Verdict A × Bool) × RateLimiter A T)
      → After now key l (x.1)
      → After now key l (y.1)
      → After now key l ((if b then x else y).1)
  After-if now key l true x y p q = p
  After-if now key l false x y p q = q

  check-After :
      (now : T) (key : Text) (o : PgOutcome A) (l : RateLimiter A T)
      → After now key l ((check now key o l).2)
  unfolding check check_inner
  check-After now key o l =
      After-if now key l (l.enabled) (check_shared now key (l.has_pool) o l) _
        (check_shared-After now key (l.has_pool) o l) (inl refl)

  module _ (laws : IsQuantity A) where
    refilled_le :
        (now : T) (c : A) (b : TokenBucket A T)
        → quantity.le c c ≡ true
        → b.capacity ≡ c
        → quantity.le (refilled now b) c ≡ true
    refilled_le now c b number e =
        subst (λ d. quantity.le (refilled now b) d ≡ true) e
          (laws.min_le _ (b.capacity) (subst (λ d. quantity.le d d ≡ true) (sym e) number))

    try_consume-Fits :
        (now : T) (c : A) (b : TokenBucket A T)
        → quantity.le c c ≡ true
        → b.capacity ≡ c
        → Fits c ((try_consume now b).1)
    unfolding try_consume
    try_consume-Fits now c b number e =
        elim (Bool-cases (quantity.le (quantity.one) (refilled now b))) [
          | inl h ↦ rw h (
            e,
            laws.le_trans _ (refilled now b) c (laws.sub_le (refilled now b) h)
                (refilled_le now c b number e),
          )
          | inr h ↦ rw h (e, refilled_le now c b number e)
        ]

    consume-Fits :
        (now : T) (key : Text) (l : RateLimiter A T)
        → Within l
        → Fits (l.capacity) ((consume now key l).1)
    unfolding consume
    consume-Fits now key l (number, fits) =
        try_consume-Fits now (l.capacity) _ number (elim (Option-cases (get key (l.buckets))) [
          | inl e ↦ rw e refl
          | inr (b, e) ↦ rw e ((fits key b e).0)
        ])

    -- One step of the map of buckets.
    insert-Fits :
        (c : A) (key : Text) (b : TokenBucket A T) (m : Dict (TokenBucket A T))
        → Fits c b
        → ((k : Text) (d : TokenBucket A T) → get k m ≡ some d → Fits c d)
        → (k : Text) (d : TokenBucket A T) → get k (insert key b m) ≡ some d
        → Fits c d
    insert-Fits c key b m new old k d h =
        let g : (if text_eq key k then some b else get k m) ≡ some d =
          sym (get-insert key k b m) ∙ h in
        elim (Bool-cases (text_eq key k)) [
          | inl e ↦ subst (Fits c) (bucket_inj (rw e at g)) new
          | inr e ↦ old k d (rw e at g)
        ]

    check_in_process-Within :
        (now : T) (key : Text) (l : RateLimiter A T)
        → Within l
        → Within ((check_in_process now key l).1)
    unfolding check_in_process
    check_in_process-Within now key l (number, fits) = (
      number,
      insert-Fits (l.capacity) key ((consume now key l).1) (l.buckets)
          (consume-Fits now key l (number, fits)) fits,
    )

    -- A check, whatever the database answers and whether or not it answers in time, leaves no bucket
    -- with more tokens than the limiter's capacity, if none had more before.
    pub check-Within :
        (now : T) (key : Text) (o : PgOutcome A) (l : RateLimiter A T)
        → Within l
        → Within ((check now key o l).2)
    check-Within now key o l w = elim (check-After now key o l) [
      | inl e ↦ subst Within (sym e) w
      | inr e ↦ subst Within (sym e) (check_in_process-Within now key l w)
    ]

  check_in_process-other :
      (now : T) (key j : Text) (l : RateLimiter A T)
      → text_eq key j ≡ false
      → get j ((check_in_process now key l).1.buckets) ≡ get j (l.buckets)
  unfolding check_in_process
  check_in_process-other now key j l e =
      rw (get-insert key j ((consume now key l).1) (l.buckets)) (rw e refl)

  -- A check for one project leaves the bucket of every other project as it is.
  pub check-other :
      (now : T) (key j : Text) (o : PgOutcome A) (l : RateLimiter A T)
      → text_eq key j ≡ false
      → get j ((check now key o l).2.buckets) ≡ get j (l.buckets)
  check-other now key j o l e = elim (check-After now key o l) [
    | inl f ↦ ap (λ m. get j (m.buckets)) f
    | inr f ↦ ap (λ m. get j (m.buckets)) f ∙ check_in_process-other now key j l e
  ]
