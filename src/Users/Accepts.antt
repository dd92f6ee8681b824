-- ===== src/Users/Accepts.antt =====
-- Requests on accounts that the handlers must serve.
use attendance_tracker.Prelude.{
  ℕ, ◌≡◌, ◌≢◌, ◌≤◌, refl, Text, Option, none, some, true, find, utf8_length, arith, ◌-◌,
}
use attendance_tracker.Database.Rows.{Db, User, Organization, superadmin, org_admin}
use attendance_tracker.Database.Session.{request, ok, begin}
use attendance_tracker.Platform.{Platform, Draws, Settings}
use attendance_tracker.Passwords.{validate_password_strength, get_password_hash}
use attendance_tracker.Reset.{member_with_email}
use attendance_tracker.Tokens.{revoke_all_user_tokens}
use attendance_tracker.Users
use attendance_tracker.Users.Create
use attendance_tracker.Users.Create.Cases.{MayGive, HasRoom, InOrg, AreFree, IsGood}
use attendance_tracker.Users.Update.Assign.{IsManaged}
use attendance_tracker.Users.Import

-- A deactivation of an account that the requester may manage, and that is not their own, is served.
pub delete_user_accepts :
    (user old : User) (id : ℕ) (db : Db)
    → id ≢ user.id
    → IsManaged user id old db
    → (request (Users.delete_user user id) db).0 ≡ ok tt
unfolding Users.delete_user request
delete_user_accepts user old id db ne m = ground (arith, ne, m.0, m.1)

-- A strong password of at most 72 bytes is accepted for an account that the requester may manage.
pub set_user_password_accepts :
    (p : Platform) (d : Draws) (user old : User) (id : ℕ) (new : Text) (db : Db)
    → IsManaged user id old db
    → (validate_password_strength p new).0 ≡ true
    → utf8_length new ≤ 72
    → (request (Users.set_user_password p d user id new) db).0 ≡ ok tt
unfolding Users.set_user_password request get_password_hash revoke_all_user_tokens
set_user_password_accepts p d user old id new db m strong short =
    ground (arith, m.0, m.1, strong, short)

external_id_free :
    (organization_id : ℕ) (x : Option Text) (db : Db)
    → ((y : Text) → x ≡ some y → find (Create.with_external_id organization_id y) db.users ≡ none)
    → Create.check_external_id organization_id x (begin db) ≡ (ok tt, begin db)
unfolding Create.check_external_id
external_id_free organization_id none db h = refl
external_id_free organization_id (some y) db h = ground (arith, h y refl)

email_free :
    (p : Platform) (organization_id : ℕ) (x : Option Text) (db : Db)
    → ((y : Text)
        → x ≡ some y
        → find (member_with_email organization_id (p.lower y)) db.users ≡ none)
    → Create.check_email p organization_id x (begin db) ≡ (ok tt, begin db)
unfolding Create.check_email
email_free p organization_id none db h = refl
email_free p organization_id (some y) db h = ground (arith, h y refl)

role_free :
    (user : User) (body : Create.UserCreate) (db : Db)
    → MayGive user body
    → Create.check_role user body.role (begin db) ≡ (ok tt, begin db)
role_free user body db (grant, other) = ground (arith, grant, other)

department_free :
    (user : User) (id : Option ℕ) (db : Db)
    → InOrg user id db
    → Create.check_department user.organization_id id (begin db) ≡ (ok tt, begin db)
unfolding Create.check_department
department_free user none db h = refl
department_free user (some k) db h = ground (arith, h k refl)

abbrev pub hash_of : Platform → Draws → Option Text → Option ℕ
hash_of p d none = none
hash_of p d (some x) = some (p.hashpw x d.salt)

password_good :
    (p : Platform) (d : Draws) (x : Option Text) (db : Db)
    → IsGood p x
    → Create.initial_hash p d x (begin db) ≡ (ok (hash_of p d x), begin db)
unfolding Create.initial_hash get_password_hash
password_good p d none db h = refl
password_good p d (some x) db h = ground (arith, h.0, h.1)

module _ (p : Platform) (st : Settings) (d : Draws) (user : User) (body : Create.UserCreate)
    (db : Db) where
  new_user_free :
      MayGive user body
      → HasRoom user db
      → AreFree p user body db
      → Create.check_new_user p user body (begin db) ≡ (ok tt, begin db)
  unfolding Create.check_new_user
  new_user_free may (org, e, room) free = ground (
    arith,
    e,
    room,
    role_free user body db may,
    external_id_free user.organization_id body.external_id db free.0,
    email_free p user.organization_id body.email db free.1,
  )

  -- A new account is accepted where the organization has room, the requester may give the role, the
  -- external id and the address are free, a department is one of the organization, and a
  -- password is strong and of at most 72 bytes.
  pub create_user_accepts :
      MayGive user body
      → HasRoom user db
      → AreFree p user body db
      → InOrg user body.department_id db
      → IsGood p body.password
      → (request (Create.create_user p st d user body) db).0
        ≡ ok (Create.new_user p d user body (hash_of p d body.password))
  unfolding Create.create_user request
  create_user_accepts may room free own good = ground (
    arith,
    new_user_free may room free,
    department_free user body.department_id db own,
    password_good p d body.password db good,
  )

module _ (p : Platform) (ids : ℕ → ℕ) (user : User) (data_ : Import.BulkImportRequest)
    (db : Db) where
  -- A bulk import answers where the requester may give the role and a department is one of the
  -- organization; its rows are those of the loop, from the places that are left.
  pub bulk_import_users_accepts :
      (org : Organization)
      → (data_.role ≡ superadmin → user.role ≡ superadmin)
      → (user.role ≡ org_admin → data_.role ≢ org_admin)
      → Create.org_of user.organization_id db ≡ some org
      → InOrg user data_.department_id db
      → (request (Import.bulk_import_users p ids user data_) db).0
        ≡ ok (
            Import.response (
              Import.import_rows p user data_ ids
                (org.max_users - Create.users_of user.organization_id db)
                0
                data_.users
                (Import.start db)))
  unfolding Import.bulk_import_users Import.check_import request
  bulk_import_users_accepts org grant other e own =
      ground (arith, e, grant, other, department_free user data_.department_id db own)
