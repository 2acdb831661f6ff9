-- ===== src/Admin/Billing.antt =====
-- crates/embyr-core/src/admin/billing.rs. The usage map is a function of the dimension; the entries,
-- whose order the source leaves open, stand in the order of the caps.
pub mod Caps
pub mod Names
use embyr_rs.Base.{
  ℕ, ◌*◌, ◌/◌, ◌%◌, ◌^◌, leb, Bool, Option, none, some, List, [], ◌∷◌, any, if◌then◌else◌,
}
use embyr_rs.Base.Text.{Text, codes, text_eq}

pub data SubscriptionPlan : Type 0 where
  free pro : SubscriptionPlan

unfoldable pub plan_as_str : SubscriptionPlan → Text
plan_as_str SubscriptionPlan.free = codes "free"
plan_as_str SubscriptionPlan.pro = codes "pro"

unfoldable pub parse_plan : Text → Option SubscriptionPlan
parse_plan s =
    if text_eq s (codes "free")
    then some SubscriptionPlan.free
    else if text_eq s (codes "pro")
    then some SubscriptionPlan.pro
    else none

pub data SubscriptionStatus : Type 0 where
  active past_due free_cap_exceeded canceled : SubscriptionStatus

unfoldable pub status_as_str : SubscriptionStatus → Text
status_as_str SubscriptionStatus.active = codes "active"
status_as_str SubscriptionStatus.past_due = codes "past_due"
status_as_str SubscriptionStatus.free_cap_exceeded = codes "free_cap_exceeded"
status_as_str SubscriptionStatus.canceled = codes "canceled"

unfoldable pub parse_status : Text → Option SubscriptionStatus
parse_status s =
    if text_eq s (codes "active")
    then some SubscriptionStatus.active
    else if text_eq s (codes "past_due")
    then some SubscriptionStatus.past_due
    else if text_eq s (codes "free_cap_exceeded")
    then some SubscriptionStatus.free_cap_exceeded
    else if text_eq s (codes "canceled")
    then some SubscriptionStatus.canceled
    else none

pub data UsageDimension : Type 0 where
  reads writes deletes storage : UsageDimension

-- `HashMap<UsageDimension, u64>` of the caps.
abbrev pub free_plan_caps : List (UsageDimension × ℕ)
free_plan_caps =
    (UsageDimension.reads, 2000000)
    ∷ (UsageDimension.writes, 500000)
    ∷ (UsageDimension.deletes, 100000)
    ∷ []

pub record DimensionCapEntry : Type 0 where
  pub dimension : UsageDimension
  pub used : ℕ
  pub cap : ℕ
  pub pct : ℕ

pub record CapStatus : Type 0 where
  pub account_id : ℕ
  pub entries : List DimensionCapEntry

-- `.copied().unwrap_or(0)`
abbrev pub usage_or_zero : Option ℕ → ℕ
usage_or_zero none = 0
usage_or_zero (some n) = n

-- `(used * 100) / cap` on `u64`, whose product wraps around.
unfoldable pub percentage : ℕ → ℕ → ℕ
percentage used cap = ((used * 100) % 2 ^ 64) / cap

abbrev pub cap_entry : (UsageDimension → Option ℕ) → UsageDimension × ℕ → DimensionCapEntry
cap_entry usage (dimension, cap) = record {
  dimension = dimension;
  used = usage_or_zero (usage dimension);
  cap = cap;
  pct = percentage (usage_or_zero (usage dimension)) cap;
}

unfoldable pub cap_entries :
    (UsageDimension → Option ℕ) → List (UsageDimension × ℕ) → List DimensionCapEntry
cap_entries usage [] = []
cap_entries usage (c ∷ cs) = cap_entry usage c ∷ cap_entries usage cs

unfoldable pub compute_cap_status : ℕ → (UsageDimension → Option ℕ) → CapStatus
unfolding cap_entries
compute_cap_status account_id usage_this_cycle = record {
  account_id = account_id;
  entries = cap_entries usage_this_cycle free_plan_caps;
}

unfoldable pub cap_exceeded : CapStatus → Bool
cap_exceeded status = any (λ entry. leb 100 entry.pct) status.entries
