-- ===== src/Users.antt =====
-- src/api/routes/users.py: the accounts of an organization. `metadata` is left out, a response is
-- the user row, and `new_id` is the UUID that a new row gets.
pub mod Create
pub mod Update
pub mod Import
pub mod Manage
pub mod Accepts
pub mod Exactly
pub mod Listing
use attendance_tracker.Prelude.{
  ℕ, Text, Option, none, some, Bool, true, false, not, ◌&&◌, ◌||◌, List, [], ◌∷◌, ⊤, ◌==◌,
  if◌then◌else◌, find, any, is_some, text_eq, update_where,
}
use attendance_tracker.Database.Rows.{
  Db, User, Organization, Department, Role, superadmin, org_admin, member, role_eq, is_superadmin,
  is_org_admin,
}
use attendance_tracker.Database.Session.{
  Failure, http, Handler, pure, raise, gets, or_raise, raise_if, modify, commit, emit, index_remove,
  ◌>>=◌, ◌>>◌,
}
use attendance_tracker.Platform.{Platform, Draws}
use attendance_tracker.Audit.{entry, record_audit}
use attendance_tracker.Passwords.{get_password_hash, validate_password_strength, hash_too_long}
use attendance_tracker.Reset.{set_password}
use attendance_tracker.SignIn.{require_strong}
use attendance_tracker.Tokens.{revoke_all_user_tokens}

abbrev pub user_not_found : Failure
user_not_found = http 404 "User not found"

-- `_get_scoped_user`
abbrev pub scoped_user : ℕ → User → Db → Option User
scoped_user id requester db =
    find
      (λ u.
        u.id == id && (is_superadmin requester || u.organization_id == requester.organization_id))
      db.users

-- `_assert_can_manage_target`
abbrev pub assert_can_manage_target : User → User → Handler ⊤
assert_can_manage_target requester target =
    raise_if (is_superadmin target && not (is_superadmin requester))
      (http 403 "Cannot manage a superadmin account")

-- the first lines of each handler that changes an account
abbrev pub managed_user : ℕ → User → Handler User
managed_user id requester = do
  user ← or_raise (← gets (scoped_user id requester)) user_not_found
  assert_can_manage_target requester user
  pure user

-- the record that `get_user` answers
unfoldable pub get_user : User → ℕ → Handler User
get_user current_user id = do
  raise_if
      (not (is_org_admin current_user || is_superadmin current_user) && not (current_user.id == id))
      (http 403 "You can only view your own profile")
  or_raise
      (← gets λ db.
        if is_org_admin current_user || is_superadmin current_user
        then scoped_user id current_user db
        else find (λ u. u.id == current_user.id) db.users)
      user_not_found

abbrev pub put_user : User → Db → Db
put_user user db = record db { users = update_where (λ u. u.id == user.id) (λ u. user) db.users }

abbrev pub embedded : ℕ → Db → Bool
embedded id db = any (λ e. e.user_id == id) db.embeddings

abbrev pub emit_if : Bool → ℕ → ℕ → Handler ⊤
emit_if b organization_id id = if b then emit (index_remove organization_id id) else pure tt

unfoldable pub delete_user : User → ℕ → Handler ⊤
delete_user current_user id = do
  raise_if (id == current_user.id) (http 400 "Cannot deactivate your own account")
  user ← managed_user id current_user
  has_embedding ← gets (embedded user.id)
  modify (put_user (record user { is_active = false }))
  commit
  emit_if (user.is_active && has_embedding) user.organization_id user.id
  record_audit (
      entry "user.deactivated" (some user.organization_id) (some current_user.id) (some user.id) []
        none)

unfoldable pub set_user_password : Platform → Draws → User → ℕ → Text → Handler ⊤
unfolding validate_password_strength get_password_hash revoke_all_user_tokens
set_user_password p d current_user id new_password = do
  user ← managed_user id current_user
  require_strong p new_password
  new_hash ← or_raise (get_password_hash p d.salt new_password) (http 400 hash_too_long)
  modify (put_user (set_password new_hash user))
  commit
  revoke_all_user_tokens d.now user.id
  record_audit (
      entry "user.password_set_by_admin" (some user.organization_id) (some current_user.id)
        (some user.id) [] none)
