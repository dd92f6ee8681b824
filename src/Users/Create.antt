-- ===== src/Users/Create.antt =====
-- src/api/routes/users.py, `create_user`.
pub mod Cases
use attendance_tracker.Prelude.{
  ℕ, Text, Option, none, some, Bool, true, false, not, ◌&&◌, List, [], ◌∷◌, ◌++◌, ⊤, ◌==◌, leb,
  if◌then◌else◌, find, count, is_some, text_eq,
}
use attendance_tracker.Database.Rows.{
  Db, User, Organization, Role, superadmin, org_admin, role_eq, is_superadmin, role_name,
}
use attendance_tracker.Database.Session.{
  Failure, http, Handler, pure, raise, gets, or_raise, raise_if, modify, commit, emit,
  send_invite_email, ◌>>=◌, ◌>>◌,
}
use attendance_tracker.Platform.{Platform, Settings, Draws}
use attendance_tracker.Audit.{entry, record_audit}
use attendance_tracker.Passwords.{get_password_hash, validate_password_strength, hash_too_long}
use attendance_tracker.Departments.{scoped_department, department_not_found}
use attendance_tracker.Reset.{member_with_email}
use attendance_tracker.SignIn.{require_strong}

pub record UserCreate : Type 0 where
  pub name : Text
  pub external_id : Option Text
  pub email : Option Text
  pub phone : Option Text
  pub department_id : Option ℕ
  pub role : Role
  pub password : Option Text
  pub send_invite_email : Bool

abbrev pub org_of : ℕ → Db → Option Organization
org_of id db = find (λ o. o.id == id) db.organizations

abbrev pub users_of : ℕ → Db → ℕ
users_of id db = count (λ (u : User). u.organization_id == id) db.users

abbrev pub org_not_found : Failure
org_not_found = http 404 "Organization not found"

-- the two tests on the role of a new account, in `create_user` and in `bulk_import_users`
abbrev pub check_role : User → Role → Handler ⊤
check_role current_user role = do
  raise_if (role_eq role superadmin && not (is_superadmin current_user))
      (http 403 "Only a superadmin can create superadmin accounts")
  raise_if (role_eq current_user.role org_admin && role_eq role org_admin)
      (http 403 "Organization admins cannot create additional admins")

abbrev pub with_external_id : ℕ → Text → User → Bool
with_external_id organization_id external_id u =
    u.organization_id == organization_id
    && (elim u.external_id [ none ↦ false | some x ↦ text_eq x external_id ])

unfoldable pub check_external_id : ℕ → Option Text → Handler ⊤
unfolding text_eq
check_external_id organization_id none = pure tt
check_external_id organization_id (some x) = do
  existing ← gets λ db. find (with_external_id organization_id x) db.users
  raise_if (is_some existing) (http 409 "User with this external ID already exists")

unfoldable pub check_email : Platform → ℕ → Option Text → Handler ⊤
unfolding text_eq
check_email p organization_id none = pure tt
check_email p organization_id (some email) = do
  existing ← gets λ db. find (member_with_email organization_id (p.lower email)) db.users
  raise_if (is_some existing) (http 409 "User with this email already exists")

unfoldable pub initial_hash : Platform → Draws → Option Text → Handler (Option ℕ)
unfolding validate_password_strength get_password_hash
initial_hash p d none = pure none
initial_hash p d (some password) = do
  require_strong p password
  new_hash ← or_raise (get_password_hash p d.salt password) (http 400 hash_too_long)
  pure (some new_hash)

unfoldable pub check_department : ℕ → Option ℕ → Handler ⊤
check_department organization_id none = pure tt
check_department organization_id (some id) = do
  or_raise (← gets (scoped_department id organization_id)) department_not_found
  pure tt

-- `normalized_email if user_data.email else None`
abbrev pub stored_email : Platform → Option Text → Option Text
stored_email p none = none
stored_email p (some []) = none
stored_email p (some (c ∷ cs)) = some (p.lower (c ∷ cs))

abbrev pub new_user : Platform → Draws → User → UserCreate → Option ℕ → User
new_user p d current_user body password_hash = record {
  id = d.new_id;
  organization_id = current_user.organization_id;
  external_id = body.external_id;
  name = p.strip body.name;
  email = stored_email p body.email;
  phone = body.phone;
  department_id = body.department_id;
  role = body.role;
  password_hash = password_hash;
  is_active = true;
  token_version = 0;
}

abbrev pub add_user : User → Db → Db
add_user user db = record db { users = db.users ++ user ∷ [] }

abbrev pub invite : Settings → Bool → User → Handler ⊤
invite st wanted user =
    if wanted && is_some user.email && st.email_enabled && st.enable_email
    then emit (send_invite_email user.id (is_some user.password_hash))
    else pure tt

-- the tests of `create_user` that look at the organization, the role and the keys
unfoldable pub check_new_user : Platform → User → UserCreate → Handler ⊤
unfolding check_external_id check_email
check_new_user p current_user body = do
  org ← or_raise (← gets (org_of current_user.organization_id)) org_not_found
  existing ← gets (users_of current_user.organization_id)
  raise_if (leb org.max_users existing) (http 403 "Organization user limit reached")
  check_role current_user body.role
  check_external_id current_user.organization_id body.external_id
  check_email p current_user.organization_id body.email

unfoldable pub create_user : Platform → Settings → Draws → User → UserCreate → Handler User
unfolding check_new_user initial_hash check_department
create_user p st d current_user body = do
  check_new_user p current_user body
  password_hash ← initial_hash p d body.password
  check_department current_user.organization_id body.department_id
  modify (add_user (new_user p d current_user body password_hash))
  commit
  invite st body.send_invite_email (new_user p d current_user body password_hash)
  record_audit (
      entry "user.created" (some current_user.organization_id) (some current_user.id)
        (some d.new_id) (("role", role_name body.role) ∷ []) none)
  pure (new_user p d current_user body password_hash)
