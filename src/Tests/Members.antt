-- ===== src/Tests/Members.antt =====
-- Membership of an account.
use embyr_rs.Base.{◌≤◌, List, [], ◌∷◌, ◌≡◌, refl, ok, arith}
use embyr_rs.Admin.Rbac.{
  owner, rank, AccountMember, remove_member, check_rbac, check_target_removal, find_member,
  owner_count,
}
use embyr_rs.Admin.Rbac.Laws.{check_rbac-rank, check_rbac-owner_target, granted}
use embyr_rs.Admin.Rbac.Owners.{apply_action, check_rbac-keeps_owner}

abbrev dana : AccountMember
dana = record { user_id = 1; role = owner }

abbrev erin : AccountMember
erin = record { user_id = 2; role = owner }

abbrev team : List AccountMember
team = dana ∷ erin ∷ []

allowed : check_rbac (remove_member 2) owner team ≡ ok tt
unfolding check_rbac check_target_removal find_member owner_count
allowed = refl

check_rbac-rank_example : (2 ≤ rank owner) × (rank (granted (remove_member 2)) ≤ rank owner)
check_rbac-rank_example = check_rbac-rank (remove_member 2) owner team allowed

check_rbac-owner_target_example : owner ≡ owner
unfolding find_member
check_rbac-owner_target_example =
    check_rbac-owner_target (remove_member 2) owner team erin allowed refl refl

check_rbac-keeps_owner_example : 1 ≤ owner_count (apply_action (remove_member 2) team)
unfolding owner_count
check_rbac-keeps_owner_example =
    check_rbac-keeps_owner (remove_member 2) owner team ((λ e. omega arith, tt), (tt, tt))
      (omega arith) allowed
