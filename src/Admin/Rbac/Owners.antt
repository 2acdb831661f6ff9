-- ===== src/Admin/Rbac/Owners.antt =====
-- An account keeps an owner: the checks of `check_rbac` against the statements that follow them in
-- crates/embyr-server/src/admin/handlers/members.rs.
use embyr_rs.Base.{
  ℕ, ◌≤◌, ◌+◌, ◌==◌, ==_iff, ◌≡◌, ◌≢◌, refl, ok, List, [], ◌∷◌, arith, Option, none, some, Bool,
  true, false, Bool-cases, inl, inr, All, if◌then◌else◌, subst,
}
use embyr_rs.Admin.Rbac.{
  Role, is_owner, AccountMember, RbacAction, remove_member, change_member_role, create_admin_key,
  delete_service_account, check_target_removal, check_target_change, check_rbac, find_member,
  owner_count,
}

-- `DELETE FROM account_members WHERE user_id = …`
unfoldable pub delete_row : ℕ → List AccountMember → List AccountMember
delete_row t [] = []
delete_row t (m ∷ ms) = if m.user_id == t then delete_row t ms else m ∷ delete_row t ms

-- `UPDATE account_members SET role = … WHERE user_id = …`
unfoldable pub update_role : ℕ → Role → List AccountMember → List AccountMember
update_role t r [] = []
update_role t r (m ∷ ms) =
    (if m.user_id == t then record m { role = r } else m) ∷ update_role t r ms

-- The rows after the handler of an allowed action.
unfoldable pub apply_action : RbacAction → List AccountMember → List AccountMember
apply_action (remove_member t) ms = delete_row t ms
apply_action (change_member_role t r) ms = update_role t r ms
apply_action (create_admin_key r) ms = ms
apply_action (delete_service_account i) ms = ms

-- A user has one row in an account.
abbrev pub HasDistinctIds : List AccountMember → Type 0
HasDistinctIds [] = Unit
HasDistinctIds (m ∷ ms) = All (λ n. n.user_id ≢ m.user_id) ms × HasDistinctIds ms

abbrev count_if : Bool → ℕ
count_if true = 1
count_if false = 0

abbrev found_owner : Option AccountMember → ℕ
found_owner none = 0
found_owner (some m) = count_if (is_owner m.role)

abbrev found_count : Bool → Option AccountMember → ℕ
found_count b none = 0
found_count b (some m) = count_if b

module _ (t : ℕ) where
  delete_row_absent : (ms : List AccountMember) → All (λ n. n.user_id ≢ t) ms → delete_row t ms ≡ ms
  unfolding delete_row
  delete_row_absent [] a = refl
  delete_row_absent (m ∷ ms) (n, a) = ground (arith, delete_row_absent ms a)

  update_role_absent :
      (r : Role) (ms : List AccountMember) → All (λ n. n.user_id ≢ t) ms → update_role t r ms ≡ ms
  unfolding update_role
  update_role_absent r [] a = refl
  update_role_absent r (m ∷ ms) (n, a) = ground (arith, update_role_absent r ms a)

  owner_count-delete_row :
      (ms : List AccountMember)
      → HasDistinctIds ms
      → owner_count (delete_row t ms) + found_owner (find_member t ms) ≡ owner_count ms
  unfolding delete_row owner_count find_member
  owner_count-delete_row [] d = omega arith
  owner_count-delete_row (m ∷ ms) (a, d) = elim (Bool-cases (m.user_id == t)) [
    | inl e ↦
        let same = (==_iff m.user_id t).0 e in
        let kept = delete_row_absent ms (subst (λ x. All (λ n. n.user_id ≢ x) ms) same a) in
        rw (e, kept) (ground arith)
    | inr e ↦ rw e (ground (arith, owner_count-delete_row ms d))
  ]

  owner_count-update_role :
      (r : Role) (ms : List AccountMember)
      → HasDistinctIds ms
      → owner_count (update_role t r ms) + found_owner (find_member t ms)
        ≡ owner_count ms + found_count (is_owner r) (find_member t ms)
  unfolding update_role owner_count find_member
  owner_count-update_role r [] d = omega arith
  owner_count-update_role r (m ∷ ms) (a, d) = elim (Bool-cases (m.user_id == t)) [
    | inl e ↦
        let same = (==_iff m.user_id t).0 e in
        let kept = update_role_absent r ms (subst (λ x. All (λ n. n.user_id ≢ x) ms) same a) in
        rw (e, kept) (ground arith)
    | inr e ↦ rw e (ground (arith, owner_count-update_role r ms d))
  ]

-- An allowed removal or role change leaves the account with an owner, if it had one and no user has
-- two rows in it.
pub check_rbac-keeps_owner :
    (action : RbacAction) (actor : Role) (members : List AccountMember)
    → HasDistinctIds members
    → 1 ≤ owner_count members
    → check_rbac action actor members ≡ ok tt
    → 1 ≤ owner_count (apply_action action members)
unfolding check_rbac apply_action check_target_removal check_target_change
check_rbac-keeps_owner (remove_member t) actor ms d o h =
    ground (arith, owner_count-delete_row t ms d)
check_rbac-keeps_owner (change_member_role t r) actor ms d o h =
    ground (arith, owner_count-update_role t r ms d)
check_rbac-keeps_owner (create_admin_key r) actor ms d o h = o
check_rbac-keeps_owner (delete_service_account i) actor ms d o h = o
