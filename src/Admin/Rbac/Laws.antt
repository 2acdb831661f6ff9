-- ===== src/Admin/Rbac/Laws.antt =====
-- What an allowed action says of the actor and the target.
use embyr_rs.Base.{◌≤◌, ◌≡◌, ok, List, arith, Option, none, some, true}
use embyr_rs.Admin.Rbac.{
  Role, viewer, admin, owner, rank, is_owner, AccountMember, RbacAction, remove_member,
  change_member_role, create_admin_key, delete_service_account, check_target_removal,
  check_target_change, check_rbac, find_member,
}

-- The role that an action hands out.
abbrev pub granted : RbacAction → Role
granted (remove_member t) = viewer
granted (change_member_role t new_role) = new_role
granted (create_admin_key requested_role) = requested_role
granted (delete_service_account id) = viewer

-- Every allowed action is an admin's or an owner's, and hands out no role above the actor's own.
pub check_rbac-rank :
    (action : RbacAction) (actor : Role) (members : List AccountMember)
    → check_rbac action actor members ≡ ok tt
    → (2 ≤ rank actor) × (rank (granted action) ≤ rank actor)
unfolding check_rbac
check_rbac-rank (remove_member t) viewer ms h = cc
check_rbac-rank (remove_member t) admin ms h = omega arith
check_rbac-rank (remove_member t) owner ms h = omega arith
check_rbac-rank (change_member_role t r) actor ms h = ground arith
check_rbac-rank (create_admin_key r) actor ms h = ground arith
check_rbac-rank (delete_service_account i) actor ms h = ground arith

-- The member that an action changes.
abbrev pub target : RbacAction → List AccountMember → Option AccountMember
target (remove_member t) ms = find_member t ms
target (change_member_role t new_role) ms = find_member t ms
target (create_admin_key requested_role) ms = none
target (delete_service_account id) ms = none

removal_by_owner :
    (actor : Role) (ms : List AccountMember) (o : Option AccountMember) (m : AccountMember)
    → check_target_removal actor ms o ≡ ok tt
    → o ≡ some m
    → is_owner m.role ≡ true
    → actor ≡ owner
unfolding check_target_removal
removal_by_owner actor ms none m h e w = cc
removal_by_owner actor ms (some x) m h e w = ground arith

change_by_owner :
    (actor new_role : Role) (ms : List AccountMember) (o : Option AccountMember) (m : AccountMember)
    → check_target_change actor new_role ms o ≡ ok tt
    → o ≡ some m
    → is_owner m.role ≡ true
    → actor ≡ owner
unfolding check_target_change
change_by_owner actor r ms none m h e w = cc
change_by_owner actor r ms (some x) m h e w = ground arith

-- Only an owner is allowed to remove an owner or to change an owner's role.
pub check_rbac-owner_target :
    (action : RbacAction) (actor : Role) (members : List AccountMember) (m : AccountMember)
    → check_rbac action actor members ≡ ok tt
    → target action members ≡ some m
    → is_owner m.role ≡ true
    → actor ≡ owner
unfolding check_rbac
check_rbac-owner_target (remove_member t) actor ms m h e w =
    removal_by_owner actor ms (find_member t ms) m (ground arith) e w
check_rbac-owner_target (change_member_role t r) actor ms m h e w =
    change_by_owner actor r ms (find_member t ms) m (ground arith) e w
check_rbac-owner_target (create_admin_key r) actor ms m h e w = cc
check_rbac-owner_target (delete_service_account i) actor ms m h e w = cc
