-- ===== src/Admin/Billing/Names.antt =====
-- The names of plans and of statuses in the database.
use embyr_rs.Base.{
  Bool-cases, Option, none, some, ◌≡◌, ◌↔◌, ◌⊎◌, inl, inr, refl, ap, ◌∙◌, if◌then◌else◌,
}
use embyr_rs.Base.Text.{Text, codes, text_eq, text_eq_sound}
use embyr_rs.Admin.Billing.{
  SubscriptionPlan, plan_as_str, parse_plan, SubscriptionStatus, status_as_str, parse_status,
}

-- One arm of a match on names: it was taken, or the arms below it were.
name_or :
    {A : Type 0} {p x : A} (s name : Text) (below : Option A)
    → (if text_eq s name then some x else below) ≡ some p
    → ((s ≡ name) × (x ≡ p)) ⊎ (below ≡ some p)
name_or s name below h = elim (Bool-cases (text_eq s name)) [
  | inl e ↦ let taken = rw e at h in inl (text_eq_sound s name e, cc)
  | inr e ↦ inr (rw e at h)
]

plan_back : (p : SubscriptionPlan) → parse_plan (plan_as_str p) ≡ some p
unfolding plan_as_str parse_plan
plan_back SubscriptionPlan.free = refl
plan_back SubscriptionPlan.pro = refl

parse_plan_sound : (s : Text) (p : SubscriptionPlan) → parse_plan s ≡ some p → s ≡ plan_as_str p
unfolding plan_as_str parse_plan
parse_plan_sound s p h = elim (name_or s (codes "free") _ h) [
  | inl (e, q) ↦ e ∙ ap plan_as_str q
  | inr h' ↦ (elim (name_or s (codes "pro") none h') [
    | inl (e, q) ↦ e ∙ ap plan_as_str q
    | inr nothing ↦ cc
  ])
]

-- A text is read as a plan exactly when it is that plan's name.
parse_plan_iff : (s : Text) (p : SubscriptionPlan) → (parse_plan s ≡ some p) ↔ (s ≡ plan_as_str p)
parse_plan_iff s p = (parse_plan_sound s p, λ e. rw e (plan_back p))

status_back : (p : SubscriptionStatus) → parse_status (status_as_str p) ≡ some p
unfolding status_as_str parse_status
status_back SubscriptionStatus.active = refl
status_back SubscriptionStatus.past_due = refl
status_back SubscriptionStatus.free_cap_exceeded = refl
status_back SubscriptionStatus.canceled = refl

parse_status_sound :
    (s : Text) (p : SubscriptionStatus) → parse_status s ≡ some p → s ≡ status_as_str p
unfolding status_as_str parse_status
parse_status_sound s p h = elim (name_or s (codes "active") _ h) [
  | inl (e, q) ↦ e ∙ ap status_as_str q
  | inr h₁ ↦ (elim (name_or s (codes "past_due") _ h₁) [
    | inl (e, q) ↦ e ∙ ap status_as_str q
    | inr h₂ ↦ (elim (name_or s (codes "free_cap_exceeded") _ h₂) [
      | inl (e, q) ↦ e ∙ ap status_as_str q
      | inr h₃ ↦ (elim (name_or s (codes "canceled") none h₃) [
        | inl (e, q) ↦ e ∙ ap status_as_str q
        | inr nothing ↦ cc
      ])
    ])
  ])
]

-- A text is read as a status exactly when it is that status's name.
pub parse_status_iff :
    (s : Text) (p : SubscriptionStatus) → (parse_status s ≡ some p) ↔ (s ≡ status_as_str p)
parse_status_iff s p = (parse_status_sound s p, λ e. rw e (status_back p))
