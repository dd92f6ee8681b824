-- ===== src/Database/Rows.antt =====
-- src/database/models.py: the rows that the modelled code reads or writes. UUIDs, token ids, key
-- digests and password hashes are only compared, so they are numbers; an instant is a number of
-- microseconds. Columns that no modelled code reads (names of columns as `logo_url`, row ids of
-- append-only tables, creation times) are left out.
use attendance_tracker.Prelude.{
  ℕ, String, Text, Option, Bool, true, false, ◌&&◌, ◌||◌, not, List, [], ltb, any, is_some,
}
use attendance_tracker.Prelude.{codes, text_eq}

pub data Role : Type 0 where
  superadmin org_admin member : Role

abbrev pub role_eq : Role → Role → Bool
role_eq superadmin superadmin = true
role_eq org_admin org_admin = true
role_eq member member = true
role_eq _ _ = false

-- a value in the JSON column `settings`; a number is kept as it is written
pub data Json : Type 0 where
  null : Json
  boolean : Bool → Json
  number : Text → Json
  string : Text → Json

-- a JSON object in the order of its keys
abbrev pub JsonObject : Type 0
JsonObject = List (Text × Json)

pub record Organization : Type 0 where
  pub id : ℕ
  pub name : Text
  pub slug : Text
  pub settings : JsonObject
  pub max_users : ℕ
  pub is_active : Bool

pub record Department : Type 0 where
  pub id : ℕ
  pub organization_id : ℕ
  pub name : Text
  pub parent_id : Option ℕ

pub record User : Type 0 where
  pub id : ℕ
  pub organization_id : ℕ
  pub external_id : Option Text
  pub name : Text
  pub email : Option Text
  pub phone : Option Text
  pub department_id : Option ℕ
  pub role : Role
  pub password_hash : Option ℕ
  pub is_active : Bool
  pub token_version : ℕ

abbrev pub is_superadmin : User → Bool
is_superadmin u = role_eq u.role superadmin

abbrev pub is_org_admin : User → Bool
is_org_admin u = role_eq u.role superadmin || role_eq u.role org_admin

pub data Method : Type 0 where
  auto manual kiosk : Method

pub record Attendance : Type 0 where
  pub organization_id : ℕ
  pub user_id : ℕ
  pub timestamp : ℕ
  pub method : Method
  pub is_spoof : Bool
  pub device_id : Option Text

pub record ApiKey : Type 0 where
  pub id : ℕ
  pub organization_id : ℕ
  pub name : Text
  pub key_hash : ℕ
  pub scopes : List Text
  pub created_by : Option ℕ
  pub last_used_at : Option ℕ
  pub expires_at : Option ℕ
  pub is_active : Bool

-- `APIKey.has_scope`
unfoldable pub has_scope : ApiKey → Text → Bool
has_scope k scope = any (text_eq (codes "*")) k.scopes || any (text_eq scope) k.scopes

pub record RefreshTokenRecord : Type 0 where
  pub jti : ℕ
  pub user_id : ℕ
  pub organization_id : Option ℕ
  pub expires_at : ℕ
  pub revoked_at : Option ℕ
  pub replaced_by_jti : Option ℕ
  pub created_ip : Option Text

pub record PasswordResetToken : Type 0 where
  pub token_hash : ℕ
  pub user_id : ℕ
  pub expires_at : ℕ
  pub used_at : Option ℕ
  pub requested_ip : Option Text

-- `PasswordResetToken.is_usable`, at the instant `now`
abbrev pub is_usable : ℕ → PasswordResetToken → Bool
is_usable now t = not (is_some t.used_at) && ltb now t.expires_at

-- a value in the JSON column `details`
pub data Value : Type 0 where
  str : String → Value
  text : Text → Value
  num : ℕ → Value
  bool : Bool → Value
  names : List String → Value
  role_name : Role → Value
  texts : List Text → Value

pub record AuditLog : Type 0 where
  pub organization_id : Option ℕ
  pub actor_id : Option ℕ
  pub action : String
  pub target_id : Option ℕ
  pub details : List (String × Value)
  pub ip_address : Option Text

-- a face template; the vector is stored as bytes
pub record Embedding : Type 0 where
  pub user_id : ℕ
  pub vector : List ℕ
  pub num_samples : ℕ
  pub version : ℕ

pub record SpoofAttempt : Type 0 where
  pub organization_id : ℕ
  pub timestamp : ℕ
  pub reason : Text

-- all tables
pub record Db : Type 0 where
  pub organizations : List Organization
  pub departments : List Department
  pub users : List User
  pub embeddings : List Embedding
  pub attendance : List Attendance
  pub audit_log : List AuditLog
  pub api_keys : List ApiKey
  pub refresh_tokens : List RefreshTokenRecord
  pub reset_tokens : List PasswordResetToken
  pub spoof_attempts : List SpoofAttempt

abbrev pub empty : Db
empty = record {
  organizations = [];
  departments = [];
  users = [];
  embeddings = [];
  attendance = [];
  audit_log = [];
  api_keys = [];
  refresh_tokens = [];
  reset_tokens = [];
  spoof_attempts = [];
}
