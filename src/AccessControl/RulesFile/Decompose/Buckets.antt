-- ===== src/AccessControl/RulesFile/Decompose/Buckets.antt =====
-- The read condition and the write condition of a block: what its clauses say of each.
use embyr_rs.Base.{
  Bool, true, false, Bool-cases, Option, none, some, List, [], ◌∷◌, ok_inj, some_inj, Any,
  Any-empty, All, here, there, ◌≡◌, ◌↔◌, ◌⊎◌, inl, inr, ◌≢◌, refl, sym, ap, subst, Result, ◌∙◌, ok,
  err, ok_or, >>=-ok, >>-ok,
}
use embyr_rs.Base.Text.{Text, text_eq, text_eq_iff}
use embyr_rs.Domain.FieldValue.{Float}
use embyr_rs.AccessControl.Syntax.{Condition}
use embyr_rs.AccessControl.Token.{ConditionParseError}
use embyr_rs.AccessControl.Tokenizer.{parse_condition}
use embyr_rs.AccessControl.RulesFile.{Verb, RulesFileError, Checked, single, unreachable_construct}
use embyr_rs.AccessControl.RulesFile.Decompose.{
  Clause, Buckets, is_read_verb, rewrite_all, fill_bucket, bucket_verb, bucket_verbs,
  require_parsed, bucket_clauses,
}

-- The bucket of the reads, or that of the writes.
abbrev pub side : Bool → Buckets → Option Text
side true (r, w) = r
side false (r, w) = w

-- A verb of the bucket is in the list.
abbrev pub HasVerb : Bool → List Verb → Type 0
HasVerb k verbs = Any (λ verb. is_read_verb verb ≡ k) verbs

-- A clause with a verb of the bucket, whose condition is rewritten to the given one.
abbrev pub Contributes : List Text → Bool → Text → Clause → Type 0
Contributes names k c clause = HasVerb k (clause.0) × (rewrite_all names (clause.1) ≡ some c)

fill_bucket_lem :
    (p r : Text) (o o' : Option Text) (c : Text)
    → fill_bucket p r o ≡ ok o'
    → (o' ≡ some c) ↔ ((o ≡ some c) ⊎ (c ≡ r))
unfolding fill_bucket
fill_bucket_lem p r none o' c h = (λ e. inr cc, λ e. elim e [ inl f ↦ cc | inr f ↦ cc ])
fill_bucket_lem p r (some s) o' c h = elim (Bool-cases (text_eq s r)) [
  | inl e ↦
      let h' = rw e at h in
      let same = (text_eq_iff s r).0 e in (λ f. inr cc, λ f. elim f [ inl g ↦ cc | inr g ↦ cc ])
  | inr e ↦ let h' = rw e at h in cc
]

buckets_eq :
    {x y x' y' : Option Text}
    → Path (Checked Buckets) (ok (x, y)) (ok (x', y'))
    → (x ≡ x') × (y ≡ y')
buckets_eq h = (cc, cc)

-- The bucket that is stored to, and the other one.
stored_side :
    {j k : Bool} {r c : Text} {o o' : Option Text}
    → j ≡ k
    → ((o' ≡ some c) ↔ ((o ≡ some c) ⊎ (c ≡ r)))
    → (o' ≡ some c) ↔ ((o ≡ some c) ⊎ ((j ≡ k) × (c ≡ r)))
stored_side e (to, back) = (
  λ f. elim (to f) [ inl g ↦ inl g | inr g ↦ inr (e, g) ],
  λ f. elim f [ inl g ↦ back (inl g) | inr g ↦ back (inr (g.1)) ],
)

other_side :
    {j k : Bool} {r c : Text} {o o' : Option Text}
    → j ≢ k
    → o ≡ o'
    → (o' ≡ some c) ↔ ((o ≡ some c) ⊎ ((j ≡ k) × (c ≡ r)))
other_side d e = (λ f. inl (e ∙ f), λ f. elim f [ inl g ↦ sym e ∙ g | inr g ↦ absurd (d (g.0)) ])

bucket_verb_lem :
    (p r : Text) (j : Bool) (b b' : Buckets) (k : Bool) (c : Text)
    → bucket_verb p r j b ≡ ok b'
    → (side k b' ≡ some c) ↔ ((side k b ≡ some c) ⊎ ((j ≡ k) × (c ≡ r)))
unfolding bucket_verb
bucket_verb_lem p r true (x, y) (x', y') true c h =
    let (o, e, f) = >>=-ok (fill_bucket p r x) _ h in
    let (u, v) = buckets_eq f in stored_side refl (fill_bucket_lem p r x x' c (e ∙ ap ok u))
bucket_verb_lem p r true (x, y) (x', y') false c h =
    let (o, e, f) = >>=-ok (fill_bucket p r x) _ h in
    let (u, v) = buckets_eq f in other_side (λ q. cc) v
bucket_verb_lem p r false (x, y) (x', y') true c h =
    let (o, e, f) = >>=-ok (fill_bucket p r y) _ h in
    let (u, v) = buckets_eq f in other_side (λ q. cc) u
bucket_verb_lem p r false (x, y) (x', y') false c h =
    let (o, e, f) = >>=-ok (fill_bucket p r y) _ h in
    let (u, v) = buckets_eq f in stored_side refl (fill_bucket_lem p r y y' c (e ∙ ap ok v))

bucket_verbs_lem :
    (p r : Text) (verbs : List Verb) (b b' : Buckets) (k : Bool) (c : Text)
    → bucket_verbs p r verbs b ≡ ok b'
    → (side k b' ≡ some c) ↔ ((side k b ≡ some c) ⊎ (HasVerb k verbs × (c ≡ r)))
unfolding bucket_verbs
bucket_verbs_lem p r [] b b' k c h =
    subst (λ d. (side k d ≡ some c) ↔ ((side k b ≡ some c) ⊎ (HasVerb k [] × (c ≡ r)))) (ok_inj h)
      (λ f. inl f, λ f. elim f [ inl g ↦ g | inr (g, q) ↦ absurd (Any-empty g) ])
bucket_verbs_lem p r (v ∷ vs) b b' k c h =
    let (n, e, f) = >>=-ok (bucket_verb p r (is_read_verb v) b) _ h in
    let (to₁, back₁) = bucket_verb_lem p r (is_read_verb v) b n k c e in
    let (to₂, back₂) = bucket_verbs_lem p r vs n b' k c f in
    (
      λ g. elim (to₂ g) [
        | inl g' ↦ (elim (to₁ g') [ inl x ↦ inl x | inr x ↦ inr (here (x.0), x.1) ])
        | inr g' ↦ inr (there (g'.0), g'.1)
      ],
      λ g. elim g [
        | inl x ↦ back₂ (inl (back₁ (inl x)))
        | inr (here x, q) ↦ back₂ (inl (back₁ (inr (x, q))))
        | inr (there x, q) ↦ back₂ (inr (x, q))
      ],
    )

require_parsed_sound :
    {A : Type 0} (p : Text) (r : Result ConditionParseError A) {u : Unit {0}}
    → require_parsed p r ≡ ok u
    → (a : A) × (r ≡ ok a)
require_parsed_sound p (ok a) h = (a, refl)
require_parsed_sound p (err e) h = cc

ok_or_sound :
    {A : Type 0} (p : RulesFileError) (o : Option A) {a : A} → ok_or p o ≡ ok a → o ≡ some a
ok_or_sound p none h = cc
ok_or_sound p (some b) h = cc

module _ (F : Type 0) ⦃float : Float F⦄ where
  -- The clause's condition is rewritten, and the result parses.
  abbrev pub Parses : List Text → Clause → Type 0
  Parses names clause =
      (c : Text) × (rewrite_all names (clause.1) ≡ some c)
      × ((condition : Condition F) × (parse_condition c ≡ ok condition))

  -- What the first turn of the loop did.
  first_turn :
      (p : Text) (names : List Text) (clause : Clause) (clauses : List Clause) (b b' : Buckets)
      → bucket_clauses F p names (clause ∷ clauses) b ≡ ok b'
      → (r : Text) × (rewrite_all names (clause.1) ≡ some r)
        × ((condition : Condition F) × (parse_condition r ≡ ok condition))
        × (n : Buckets) × (bucket_verbs p r (clause.0) b ≡ ok n)
        × (bucket_clauses F p names clauses n ≡ ok b')
  unfolding bucket_clauses
  first_turn p names (vs, raw) clauses b b' h =
      let stuck = single p unreachable_construct in
      let (r, e, f) = >>=-ok (ok_or stuck (rewrite_all names raw)) _ h in
      let (parsed, g) = >>-ok (require_parsed p (parse_condition {F = F} r)) _ f in
      let (n, bucketed, rest) = >>=-ok (bucket_verbs p r vs b) _ g in
      (
        r,
        ok_or_sound stuck (rewrite_all names raw) e,
        require_parsed_sound p (parse_condition {F = F} r) (parsed.1),
        n,
        bucketed,
        rest,
      )

  pub bucket_clauses_lem :
      (p : Text) (names : List Text) (clauses : List Clause) (b b' : Buckets) (k : Bool) (c : Text)
      → bucket_clauses F p names clauses b ≡ ok b'
      → (side k b' ≡ some c) ↔ ((side k b ≡ some c) ⊎ Any (Contributes names k c) clauses)
  unfolding bucket_clauses
  bucket_clauses_lem p names [] b b' k c h =
      subst (λ d. (side k d ≡ some c) ↔ ((side k b ≡ some c) ⊎ Any (Contributes names k c) []))
        (ok_inj h) (λ f. inl f, λ f. elim f [ inl g ↦ g | inr g ↦ absurd (Any-empty g) ])
  bucket_clauses_lem p names (clause ∷ clauses) b b' k c h =
      let (r, e, parsed, n, bucketed, rest) = first_turn p names clause clauses b b' h in
      let (to₁, back₁) = bucket_verbs_lem p r (clause.0) b n k c bucketed in
      let (to₂, back₂) = bucket_clauses_lem p names clauses n b' k c rest in
      (
        λ g. elim (to₂ g) [
          | inl g' ↦ (elim (to₁ g') [
            | inl x ↦ inl x
            | inr (has, q) ↦ inr (here (has, e ∙ ap some (sym q)))
          ])
          | inr g' ↦ inr (there g')
        ],
        λ g. elim g [
          | inl x ↦ back₂ (inl (back₁ (inl x)))
          | inr (here (has, q)) ↦ back₂ (inl (back₁ (inr (has, some_inj (sym q ∙ e)))))
          | inr (there x) ↦ back₂ (inr x)
        ],
      )

  pub bucket_clauses-Parses :
      (p : Text) (names : List Text) (clauses : List Clause) (b b' : Buckets)
      → bucket_clauses F p names clauses b ≡ ok b'
      → All (Parses names) clauses
  bucket_clauses-Parses p names [] b b' h = tt
  bucket_clauses-Parses p names (clause ∷ clauses) b b' h =
      let (r, e, parsed, n, bucketed, rest) = first_turn p names clause clauses b b' h in
      ((r, e, parsed), bucket_clauses-Parses p names clauses n b' rest)
