-- ===== src/Tests/Billing.antt =====
-- Caps at their boundary, and a status read back.
use embyr_rs.Base.{ℕ, ◌*◌, ◌^◌, ◌<◌, ◌≤◌, true, Option, some, none, ◌≡◌, ◌↔◌, ◌⊎◌, refl, arith}
use embyr_rs.Base.Text.{codes}
use embyr_rs.Admin.Billing.{
  UsageDimension, usage_or_zero, compute_cap_status, cap_exceeded, SubscriptionStatus, parse_status,
  status_as_str, percentage,
}
use embyr_rs.Admin.Billing.Names.{parse_status_iff}
use embyr_rs.Admin.Billing.Caps.{cap_exceeded_iff}

abbrev usage : UsageDimension → Option ℕ
usage UsageDimension.reads = some 2000000
usage UsageDimension.writes = some 3
usage UsageDimension.deletes = none
usage UsageDimension.storage = none

usage_run : cap_exceeded (compute_cap_status 1 usage) ≡ true
unfolding cap_exceeded compute_cap_status percentage
usage_run = refl

usage_bound : (d : UsageDimension) → usage_or_zero (usage d) * 100 < 2 ^ 64
usage_bound UsageDimension.reads = omega arith
usage_bound UsageDimension.writes = omega arith
usage_bound UsageDimension.deletes = omega arith
usage_bound UsageDimension.storage = omega arith

cap_exceeded_iff_example : (cap_exceeded (compute_cap_status 1 usage) ≡ true) ↔ (
    (2000000 ≤ usage_or_zero (usage UsageDimension.reads))
    ⊎ (500000 ≤ usage_or_zero (usage UsageDimension.writes))
    ⊎ (100000 ≤ usage_or_zero (usage UsageDimension.deletes)))
cap_exceeded_iff_example = cap_exceeded_iff 1 usage usage_bound

parse_status_iff_example :
    (parse_status (codes "past_due") ≡ some SubscriptionStatus.past_due)
    ↔ (codes "past_due" ≡ status_as_str SubscriptionStatus.past_due)
parse_status_iff_example = parse_status_iff (codes "past_due") SubscriptionStatus.past_due
