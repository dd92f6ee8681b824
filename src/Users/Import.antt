-- ===== src/Users/Import.antt =====
-- src/api/routes/users.py, `bulk_import_users`. The savepoint of a row fails on the two unique
-- indexes of `User` (src/database/models.py) and on nothing else here; `ids` are the UUIDs drawn
-- for the rows, by their index.
pub mod Limit
use attendance_tracker.Prelude.{
  ℕ, ◌+◌, ◌-◌, String, Text, Option, none, some, Bool, true, false, not, ◌&&◌, ◌||◌, List, [], ◌∷◌,
  ◌++◌, ⊤, ◌==◌, leb, if◌then◌else◌, find, any, is_some, text_eq, length,
}
use attendance_tracker.Database.Rows.{Db, User, Role, num}
use attendance_tracker.Database.Session.{
  http, Handler, pure, gets, or_raise, raise_if, modify, commit, ◌>>=◌, ◌>>◌,
}
use attendance_tracker.Platform.{Platform}
use attendance_tracker.Audit.{entry, record_audit}
use attendance_tracker.Reset.{member_with_email}
use attendance_tracker.Users.Create.{
  org_of, users_of, org_not_found, check_role, check_department, with_external_id,
}

pub record BulkImportItem : Type 0 where
  pub name : Text
  pub external_id : Option Text
  pub email : Option Text
  pub phone : Option Text

pub record BulkImportRequest : Type 0 where
  pub department_id : Option ℕ
  pub role : Role
  pub users : List BulkImportItem

pub data RowError : Type 0 where
  limit_reached duplicate_external_id duplicate_email integrity_error : RowError

-- the variables of the loop, with the user table that it writes
pub record ImportState : Type 0 where
  pub users : List User
  pub imported : ℕ
  pub seen_external : List Text
  pub seen_email : List Text
  pub errors : List (ℕ × RowError)

-- `f(x) if x else ""`
abbrev pub key_of : (Text → Text) → Option Text → Text
key_of f none = []
key_of f (some []) = []
key_of f (some (c ∷ cs)) = f (c ∷ cs)

abbrev pub non_empty : Text → Bool
non_empty [] = false
non_empty (c ∷ cs) = true

-- `key and key in seen`
abbrev pub seen_before : Text → List Text → Bool
seen_before key seen = non_empty key && any (text_eq key) seen

abbrev pub remember : Text → List Text → List Text
remember key seen = if non_empty key then key ∷ seen else seen

-- `email_key or None`
abbrev pub or_none : Text → Option Text
or_none [] = none
or_none (c ∷ cs) = some (c ∷ cs)

abbrev pub import_user : Platform → User → BulkImportRequest → ℕ → BulkImportItem → User
import_user p current_user data_ id item = record {
  id = id;
  organization_id = current_user.organization_id;
  external_id = item.external_id;
  name = p.strip item.name;
  email = or_none (key_of p.lower item.email);
  phone = item.phone;
  department_id = data_.department_id;
  role = data_.role;
  password_hash = none;
  is_active = true;
  token_version = 0;
}

abbrev pub clash : (Text → User → Bool) → Option Text → List User → Bool
clash same none users = false
clash same (some x) users = any (same x) users

-- `ix_user_org_external` and `ix_user_org_email`
abbrev pub violates_unique : User → List User → Bool
violates_unique user users =
    clash (with_external_id user.organization_id) user.external_id users
    || clash (member_with_email user.organization_id) user.email users

abbrev pub failed : ℕ → RowError → ImportState → ImportState
failed index e s = record s { errors = s.errors ++ (index, e) ∷ [] }

-- the body of the loop
unfoldable pub import_row :
    Platform
    → User
    → BulkImportRequest
    → (ℕ → ℕ)
    → ℕ
    → ℕ
    → BulkImportItem
    → ImportState
    → ImportState
unfolding text_eq
import_row p current_user data_ ids remaining_slots index item s =
    let external_key = key_of p.strip item.external_id in
    let email_key = key_of p.lower item.email in
    let user = import_user p current_user data_ (ids index) item in
    if leb remaining_slots s.imported
    then failed index limit_reached s
    else if seen_before external_key s.seen_external
    then failed index duplicate_external_id s
    else if seen_before email_key s.seen_email
    then failed index duplicate_email s
    else if violates_unique user s.users
    then failed index integrity_error s
    else record {
      users = s.users ++ user ∷ [];
      imported = s.imported + 1;
      seen_external = remember external_key s.seen_external;
      seen_email = remember email_key s.seen_email;
      errors = s.errors;
    }

unfoldable pub import_rows :
    Platform
    → User
    → BulkImportRequest
    → (ℕ → ℕ)
    → ℕ
    → ℕ
    → List BulkImportItem
    → ImportState
    → ImportState
unfolding import_row
import_rows p current_user data_ ids remaining_slots index [] s = s
import_rows p current_user data_ ids remaining_slots index (item ∷ items) s =
    import_rows p current_user data_ ids remaining_slots (index + 1) items
      (import_row p current_user data_ ids remaining_slots index item s)

abbrev pub start : Db → ImportState
start db = record {
  users = db.users;
  imported = 0;
  seen_external = [];
  seen_email = [];
  errors = [];
}

pub record BulkImportResponse : Type 0 where
  pub imported : ℕ
  pub failed : ℕ
  pub errors : List (ℕ × RowError)

abbrev pub response : ImportState → BulkImportResponse
response s = record { imported = s.imported; failed = length s.errors; errors = s.errors }

-- the tests before the loop, and `remaining_slots`
unfoldable pub check_import : User → BulkImportRequest → Handler ℕ
unfolding check_department
check_import current_user data_ = do
  check_role current_user data_.role
  org ← or_raise (← gets (org_of current_user.organization_id)) org_not_found
  existing ← gets (users_of current_user.organization_id)
  check_department current_user.organization_id data_.department_id
  pure (org.max_users - existing)

unfoldable pub bulk_import_users :
    Platform → (ℕ → ℕ) → User → BulkImportRequest → Handler BulkImportResponse
unfolding check_import import_rows
bulk_import_users p ids current_user data_ = do
  remaining_slots ← check_import current_user data_
  done ← gets λ db. import_rows p current_user data_ ids remaining_slots 0 data_.users (start db)
  modify (λ db. record db { users = done.users })
  commit
  record_audit (
      entry "user.bulk_imported" (some current_user.organization_id) (some current_user.id) none
        (("imported", num done.imported) ∷ ("failed", num (length done.errors)) ∷ []) none)
  pure (response done)
