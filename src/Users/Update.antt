-- ===== src/Users/Update.antt =====
-- src/api/routes/users.py, `update_user`: the tests and assignments on the fetched object, in the
-- source's order; nothing is written before the commit. `metadata` is left out.
pub mod Assign
pub mod Index
use attendance_tracker.Prelude.{
  ℕ, String, Text, Option, none, some, Bool, true, false, not, ◌&&◌, ◌||◌, List, [], ◌∷◌, ◌++◌, ⊤,
  ◌==◌, if◌then◌else◌, find, is_some, text_eq,
}
use attendance_tracker.Database.Rows.{Db, User, Role, superadmin, role_eq, is_superadmin, names}
use attendance_tracker.Database.Session.{
  Failure, http, Handler, pure, raise, gets, or_raise, raise_if, modify, commit, ◌>>=◌, ◌>>◌,
}
use attendance_tracker.Platform.{Platform}
use attendance_tracker.Audit.{entry, record_audit}
use attendance_tracker.Departments.{scoped_department, department_not_found}
use attendance_tracker.Reset.{member_with_email}
use attendance_tracker.Users.{managed_user, put_user, embedded, emit_if, user_not_found}
use attendance_tracker.Users.Create.{with_external_id}

pub record UserUpdate : Type 0 where
  pub name : Option Text
  pub external_id : Option Text
  pub email : Option Text
  pub phone : Option Text
  pub department_id : Option ℕ
  pub role : Option Role
  pub is_active : Option Bool

abbrev pub set_name : Platform → Option Text → User → User
set_name p none user = user
set_name p (some name) user = record user { name = p.strip name }

unfoldable pub set_external_id : Option Text → User → Handler User
unfolding text_eq
set_external_id none user = pure user
set_external_id (some x) user = do
  conflict ←
      gets λ db.
        find (λ u. with_external_id user.organization_id x u && not (u.id == user.id)) db.users
  raise_if (is_some conflict) (http 409 "Another user already has this external ID")
  pure (record user { external_id = some x })

unfoldable pub set_email : Platform → Option Text → User → Handler User
unfolding text_eq
set_email p none user = pure user
set_email p (some email) user = do
  conflict ← gets λ db.
      find (λ u. member_with_email user.organization_id (p.lower email) u && not (u.id == user.id))
        db.users
  raise_if (is_some conflict) (http 409 "Another user already has this email")
  pure (record user { email = some (p.lower email) })

abbrev pub set_phone : Option Text → User → User
set_phone none user = user
set_phone (some phone) user = record user { phone = some phone }

unfoldable pub set_department : User → Option ℕ → User → Handler User
set_department current_user none user = pure user
set_department current_user (some id) user = do
  dept ← gets (scoped_department id user.organization_id)
  raise_if
      ((user.organization_id == current_user.organization_id || is_superadmin current_user)
        && not (is_some dept))
      department_not_found
  pure (record user { department_id = some id })

unfoldable pub set_role : User → Option Role → User → Handler User
set_role current_user none user = pure user
set_role current_user (some role) user = do
  raise_if (role_eq role superadmin && not (is_superadmin current_user))
      (http 403 "Only a superadmin can grant superadmin role")
  pure (record user { role = role })

abbrev pub set_active : Option Bool → User → User
set_active none user = user
set_active (some b) user = record user { is_active = b }

-- `changes.get("is_active")` as a condition
abbrev pub active_change : UserUpdate → Bool
active_change body = elim body.is_active [ none ↦ false | some b ↦ b ]

abbrev pub key : {A : Type 0} → String → Option A → List String
key k none = []
key k (some a) = k ∷ []

-- `list(changes.keys())`
abbrev pub changed_keys : UserUpdate → List String
changed_keys body =
    key "name" body.name
    ++ (key "external_id" body.external_id
        ++ (key "email" body.email
            ++ (key "phone" body.phone
                ++ (key "department_id" body.department_id
                    ++ (key "role" body.role ++ key "is_active" body.is_active)))))

-- the object after all assignments
unfoldable pub changed_user : Platform → User → UserUpdate → User → Handler User
unfolding set_external_id set_email set_department set_role
changed_user p current_user body user = do
  a ← set_external_id body.external_id (set_name p body.name user)
  b ← set_email p body.email a
  c ← set_department current_user body.department_id (set_phone body.phone b)
  e ← set_role current_user body.role c
  pure (set_active body.is_active e)

unfoldable pub update_user : Platform → User → ℕ → UserUpdate → Handler User
unfolding changed_user
update_user p current_user id body = do
  user ← managed_user id current_user
  changed ← changed_user p current_user body user
  modify (put_user changed)
  commit
  record_audit (
      entry "user.updated" (some changed.organization_id) (some current_user.id) (some changed.id)
        (("changes", names (changed_keys body)) ∷ []) none)
  fetched ← or_raise (← gets (λ db. find (λ u. u.id == changed.id) db.users)) user_not_found
  has_embedding ← gets (embedded fetched.id)
  emit_if (active_change body && not fetched.is_active && has_embedding) fetched.organization_id
      fetched.id
  pure fetched
