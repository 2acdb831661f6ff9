-- ===== src/Admin/Billing/Caps.antt =====
-- When a Free account counts as over its caps.
use embyr_rs.Base.{ℕ, ◌*◌, ◌^◌, ◌≤◌, ◌<◌, leb, true, Option, ◌≡◌, ◌↔◌, ◌⊎◌, arith}
use embyr_rs.Admin.Billing.{
  UsageDimension, usage_or_zero, percentage, compute_cap_status, cap_exceeded,
}

reads_iff : (n : ℕ) → n * 100 < 2 ^ 64 → (leb 100 (percentage n 2000000) ≡ true) ↔ (2000000 ≤ n)
unfolding percentage
reads_iff n l = ground arith

writes_iff : (n : ℕ) → n * 100 < 2 ^ 64 → (leb 100 (percentage n 500000) ≡ true) ↔ (500000 ≤ n)
unfolding percentage
writes_iff n l = ground arith

deletes_iff : (n : ℕ) → n * 100 < 2 ^ 64 → (leb 100 (percentage n 100000) ≡ true) ↔ (100000 ≤ n)
unfolding percentage
deletes_iff n l = ground arith

-- An account counts as over its caps exactly when its reads, writes or deletes of the cycle have
-- reached the cap, the cap itself included; a dimension without a record counts as zero, and storage
-- never counts. No count may be so large that its hundredfold overflows 64 bits.
pub cap_exceeded_iff :
    (account_id : ℕ) (usage : UsageDimension → Option ℕ)
    → ((d : UsageDimension) → usage_or_zero (usage d) * 100 < 2 ^ 64)
    → (cap_exceeded (compute_cap_status account_id usage) ≡ true) ↔ (
        (2000000 ≤ usage_or_zero (usage UsageDimension.reads))
        ⊎ (500000 ≤ usage_or_zero (usage UsageDimension.writes))
        ⊎ (100000 ≤ usage_or_zero (usage UsageDimension.deletes)))
unfolding cap_exceeded compute_cap_status
cap_exceeded_iff account_id usage bound = ground (
  arith,
  reads_iff _ (bound UsageDimension.reads),
  writes_iff _ (bound UsageDimension.writes),
  deletes_iff _ (bound UsageDimension.deletes),
)
