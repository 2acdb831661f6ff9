-- ===== src/Admin/Rbac.antt =====
-- admin/rbac.rs and the roles of admin/account.rs. Identifiers (UUIDs) are numbers.
pub mod Laws
pub mod Owners
use embyr_rs.Base.{
  ℕ, suc, ◌+◌, ◌==◌, ltb, leb, Bool, true, false, ◌&&◌, not, Option, none, some, List, [], ◌∷◌,
  if◌then◌else◌, Result, ok, err, ◌>>=◌, ◌>>◌,
}

pub data Role : Type 0 where
  viewer admin owner : Role

-- The discriminants, in whose order the derived `Ord` compares.
abbrev pub rank : Role → ℕ
rank viewer = 1
rank admin = 2
rank owner = 3

abbrev pub role_lt : Role → Role → Bool
role_lt a b = ltb (rank a) (rank b)

abbrev pub is_owner : Role → Bool
is_owner owner = true
is_owner _ = false

pub record AccountMember : Type 0 where
  pub user_id : ℕ
  pub role : Role

pub data RbacAction : Type 0 where
  remove_member : ℕ → RbacAction
  change_member_role : ℕ → Role → RbacAction
  create_admin_key : Role → RbacAction
  delete_service_account : ℕ → RbacAction

pub data RbacError : Type 0 where
  insufficient_role : Role → Role → RbacError
  last_owner : RbacError
  admin_cannot_modify_owner : RbacError
  role_escalation : Role → Role → RbacError

-- `all_members.iter().find(|m| m.user_id == target_id)`
unfoldable pub find_member : ℕ → List AccountMember → Option AccountMember
find_member target_id [] = none
find_member target_id (m ∷ ms) = if m.user_id == target_id then some m else find_member target_id ms

-- `all_members.iter().filter(|m| m.role == Role::Owner).count()`
unfoldable pub owner_count : List AccountMember → ℕ
owner_count [] = 0
owner_count (m ∷ ms) = if is_owner m.role then suc (owner_count ms) else owner_count ms

-- `if condition { return Err(error); }`
abbrev pub deny_if : Bool → RbacError → Result RbacError (Unit {0})
deny_if true e = err e
deny_if false e = ok tt

unfoldable pub check_target_removal :
    Role → List AccountMember → Option AccountMember → Result RbacError (Unit {0})
check_target_removal actor_role all_members none = ok tt
check_target_removal actor_role all_members (some target) =
    if is_owner target.role
    then (do
      deny_if (role_lt actor_role owner) admin_cannot_modify_owner
      deny_if (leb (owner_count all_members) 1) last_owner)
    else ok tt

unfoldable pub check_target_change :
    Role → Role → List AccountMember → Option AccountMember → Result RbacError (Unit {0})
check_target_change actor_role new_role all_members none = ok tt
check_target_change actor_role new_role all_members (some target) =
    if is_owner target.role
    then (do
      deny_if (role_lt actor_role owner) admin_cannot_modify_owner
      deny_if (role_lt new_role owner && leb (owner_count all_members) 1) last_owner)
    else ok tt

unfoldable pub check_rbac : RbacAction → Role → List AccountMember → Result RbacError (Unit {0})
check_rbac (remove_member target_id) actor_role all_members = do
  deny_if (role_lt actor_role admin) (insufficient_role actor_role admin)
  check_target_removal actor_role all_members (find_member target_id all_members)
check_rbac (change_member_role target_id new_role) actor_role all_members = do
  deny_if (role_lt actor_role admin) (insufficient_role actor_role admin)
  deny_if (role_lt actor_role new_role) (role_escalation actor_role new_role)
  check_target_change actor_role new_role all_members (find_member target_id all_members)
check_rbac (create_admin_key requested_role) actor_role all_members = do
  deny_if (role_lt actor_role admin) (insufficient_role actor_role admin)
  deny_if (role_lt actor_role requested_role) (role_escalation actor_role requested_role)
check_rbac (delete_service_account id) actor_role all_members =
    deny_if (role_lt actor_role admin) (insufficient_role actor_role admin)
