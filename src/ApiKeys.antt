-- ===== src/ApiKeys.antt =====
-- src/api/routes/admin.py: the API keys of an organization, and `generate_api_key` of
-- src/utils/security.py, whose random part is drawn by the caller here. `prefix` is shown to
-- people only and is left out.
pub mod Lifecycle
use attendance_tracker.Prelude.{
  ℕ, ◌+◌, Text, Option, none, some, Bool, true, false, ◌&&◌, List, [], ◌∷◌, ◌++◌, ⊤, ◌==◌,
  if◌then◌else◌, find, update_where, select_where,
}
use attendance_tracker.Database.Rows.{Db, User, ApiKey, text, texts}
use attendance_tracker.Database.Session.{
  Failure, http, Handler, pure, gets, or_raise, modify, commit, ◌>>=◌, ◌>>◌,
}
use attendance_tracker.Platform.{Platform, days}
use attendance_tracker.Audit.{entry, record_audit}

pub record ApiKeyCreate : Type 0 where
  pub name : Text
  pub scopes : List Text
  pub expires_in_days : Option ℕ

abbrev pub expiry : ℕ → Option ℕ → Option ℕ
expiry now none = none
expiry now (some n) = some (now + days n)

abbrev pub new_key : Platform → ℕ → ℕ → ℕ → User → ApiKeyCreate → ApiKey
new_key p now new_id plaintext current_user body = record {
  id = new_id;
  organization_id = current_user.organization_id;
  name = p.strip body.name;
  key_hash = p.hash_api_key plaintext;
  scopes = body.scopes;
  created_by = some current_user.id;
  last_used_at = none;
  expires_at = expiry now body.expires_in_days;
  is_active = true;
}

abbrev pub add_key : ApiKey → Db → Db
add_key k db = record db { api_keys = db.api_keys ++ k ∷ [] }

-- the row, and the plaintext that is shown once
unfoldable pub create_api_key : Platform → ℕ → ℕ → ℕ → User → ApiKeyCreate → Handler (ApiKey × ℕ)
create_api_key p now new_id plaintext current_user body = do
  modify (add_key (new_key p now new_id plaintext current_user body))
  commit
  record_audit (
      entry "api_key.created" (some current_user.organization_id) (some current_user.id)
        (some new_id) (("name", text (p.strip body.name)) ∷ ("scopes", texts body.scopes) ∷ [])
        none)
  pure (new_key p now new_id plaintext current_user body, plaintext)

-- `list_api_keys`, without its order
abbrev pub list_api_keys : User → Handler (List ApiKey)
list_api_keys current_user =
    gets λ db. select_where (λ k. k.organization_id == current_user.organization_id) db.api_keys

abbrev pub scoped_key : ℕ → ℕ → Db → Option ApiKey
scoped_key id organization_id db =
    find (λ k. k.id == id && k.organization_id == organization_id) db.api_keys

abbrev pub key_not_found : Failure
key_not_found = http 404 "API key not found"

abbrev pub deactivate : ApiKey → ApiKey
deactivate k = record k { is_active = false }

abbrev pub put_inactive : ℕ → Db → Db
put_inactive id db = record db { api_keys = update_where (λ k. k.id == id) deactivate db.api_keys }

unfoldable pub revoke_api_key : User → ℕ → Handler ⊤
revoke_api_key current_user key_id = do
  key ← or_raise (← gets (scoped_key key_id current_user.organization_id)) key_not_found
  modify (put_inactive key.id)
  commit
  record_audit (
      entry "api_key.revoked" (some current_user.organization_id) (some current_user.id)
        (some key.id) [] none)
