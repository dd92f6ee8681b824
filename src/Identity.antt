-- ===== src/Identity.antt =====
-- src/api/dependencies.py: who makes a request. The raising and the quiet way to resolve a bearer
-- token, API keys and their scopes, the gates on roles, and the page parameters.
pub mod Revocation
use attendance_tracker.Prelude.{
  ℕ, ◌+◌, ◌-◌, ◌*◌, min, String, Text, Option, none, some, Bool, true, false, not, ◌&&◌, List, [],
  ◌∷◌, ⊤, ltb, ◌==◌, if◌then◌else◌, is_some, find, update_where, select_where, text_eq,
}
use attendance_tracker.Database.Rows.{
  Db, User, ApiKey, Organization, is_superadmin, is_org_admin, has_scope,
}
use attendance_tracker.Database.Session.{
  Failure, http, Handler, pure, raise, gets, or_raise, raise_if, modify, commit, ◌>>=◌, ◌>>◌,
}
use attendance_tracker.Platform.{Platform, Payload, access}
use attendance_tracker.Tokens.{verify_token, tv_of}

-- `_resolve_active_user`; a `sub` that is no UUID is none in the payload
unfoldable pub resolve_active_user : (p : Platform) → ℕ → p.Token → Handler User
resolve_active_user p now token = do
  payload ← or_raise (verify_token p now access token) (http 401 "Invalid or expired token")
  user_id ← or_raise payload.sub (http 401 "Invalid token")
  user ←
      or_raise (← gets (λ db. find (λ u. u.id == user_id) db.users))
        (http 401 "User not found or inactive")
  raise_if (not user.is_active) (http 401 "User not found or inactive")
  raise_if (not (tv_of payload == user.token_version)) (http 401 "Token has been revoked")
  pure user

unfoldable pub get_current_user : (p : Platform) → ℕ → Option p.Token → Handler User
unfolding resolve_active_user
get_current_user p now none = raise (http 401 "Not authenticated")
get_current_user p now (some token) = resolve_active_user p now token

-- `get_org_admin_user` and `get_superadmin_user`, on the user that was resolved
unfoldable pub get_org_admin_user : User → Handler User
get_org_admin_user u = do
  raise_if (not (is_org_admin u)) (http 403 "Organization admin privileges required")
  pure u

unfoldable pub get_superadmin_user : User → Handler User
get_superadmin_user u = do
  raise_if (not (is_superadmin u)) (http 403 "Superadmin access required")
  pure u

abbrev active_user : Option User → Option User
active_user none = none
active_user (some u) = if u.is_active then some u else none

abbrev quiet_user : Option Payload → Handler (Option User)
quiet_user none = pure none
quiet_user (some payload) = elim payload.sub [
  | none ↦ pure none
  | some user_id ↦ do
    user ← gets (λ db. find (λ u. u.id == user_id) db.users)
    pure (active_user user)
]

unfoldable pub bearer_or_none : (p : Platform) → ℕ → Option p.Token → Handler (Option User)
bearer_or_none p now none = pure none
bearer_or_none p now (some token) = quiet_user (verify_token p now access token)

-- `api_key_obj.expires_at is not None and api_key_obj.expires_at < now`
abbrev pub key_expired : ℕ → ApiKey → Bool
key_expired now k = elim k.expires_at [ none ↦ false | some t ↦ ltb t now ]

abbrev pub touch : ℕ → ApiKey → ApiKey
touch now k = record k { last_used_at = some now }

unfoldable pub load_active_api_key : (p : Platform) → ℕ → ℕ → Handler ApiKey
load_active_api_key p now raw_key = do
  key ←
      or_raise (← gets (λ db. find (λ k. k.key_hash == p.hash_api_key raw_key) db.api_keys))
        (http 401 "Invalid or inactive API key")
  raise_if (not key.is_active) (http 401 "Invalid or inactive API key")
  raise_if (key_expired now key) (http 401 "API key has expired")
  modify λ db. record db {
    api_keys = update_where (λ k. k.key_hash == p.hash_api_key raw_key) (touch now) db.api_keys;
  }
  commit
  pure (touch now key)

unfoldable pub get_optional_api_key : (p : Platform) → ℕ → Option ℕ → Handler (Option ApiKey)
unfolding load_active_api_key
get_optional_api_key p now none = pure none
get_optional_api_key p now (some raw_key) = do
  key ← load_active_api_key p now raw_key
  pure (some key)

unfoldable pub require_api_key : (p : Platform) → ℕ → Option ℕ → Handler ApiKey
unfolding load_active_api_key
require_api_key p now none = raise (http 401 "API key required")
require_api_key p now (some raw_key) = load_active_api_key p now raw_key

abbrev no_scopes : List Text → Bool
no_scopes [] = true
no_scopes (s ∷ ss) = false

-- `require_api_key_scope(*required_scopes)`, on the key that was resolved
unfoldable pub require_api_key_scope : List Text → ApiKey → Handler ApiKey
unfolding has_scope
require_api_key_scope required key = do
  raise_if (not (no_scopes (select_where (λ s. not (has_scope key s)) required)))
      (http 403 "API key missing required scopes")
  pure key

-- `RequesterContext`: a user or an API key, never neither.
pub data RequesterContext : Type 0 where
  user : User → RequesterContext
  api_key : ApiKey → RequesterContext

abbrev pub context_organization_id : RequesterContext → ℕ
context_organization_id (user u) = u.organization_id
context_organization_id (api_key k) = k.organization_id

-- The two dependencies run first, in this order.
unfoldable pub authenticate_requester :
    (p : Platform) → ℕ → Option p.Token → Option ℕ → Handler RequesterContext
unfolding bearer_or_none get_optional_api_key
authenticate_requester p now credentials x_api_key = do
  request_user ← bearer_or_none p now credentials
  api_key_obj ← get_optional_api_key p now x_api_key
  elim request_user [
    | some u ↦ pure (user u)
    | none ↦ elim api_key_obj [
      | some k ↦ pure (api_key k)
      | none ↦ raise (http 401 "Authentication required (Bearer token or X-API-Key)")
    ]
  ]

unfoldable pub get_organization_by_slug : Text → Handler Organization
unfolding text_eq
get_organization_by_slug org_slug = do
  org ←
      or_raise (← gets (λ db. find (λ o. text_eq o.slug org_slug) db.organizations))
        (http 404 "Organization not found")
  raise_if (not org.is_active) (http 403 "Organization is inactive")
  pure org

pub record PaginationParams : Type 0 where
  pub page : ℕ
  pub page_size : ℕ
  pub offset : ℕ

-- `page` and `page_size` are at least 1 (`ge=1`); `max_page_size` is of the settings.
unfoldable pub pagination : ℕ → ℕ → ℕ → PaginationParams
pagination max_page_size page page_size =
    let clamped_size = min page_size max_page_size in
    record { page = page; page_size = clamped_size; offset = (page - 1) * clamped_size }
