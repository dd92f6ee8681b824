-- ===== src/Tokens.antt =====
-- src/utils/security.py (JWT part) and src/services/auth_service.py.
pub mod Rotation
pub mod Reuse
pub mod Later
use attendance_tracker.Prelude.{
  ℕ, ◌+◌, ◌*◌, Text, Option, none, some, Bool, true, false, not, ◌&&◌, [], ◌∷◌, ◌++◌, ⊤, ltb, leb,
  ◌==◌, if◌then◌else◌, is_some, find, count, update_where,
}
use attendance_tracker.Database.Rows.{Db, User, RefreshTokenRecord}
use attendance_tracker.Database.Session.{
  Failure, http, Handler, pure, raise, gets, or_raise, raise_if, modify, commit, ◌>>=◌, ◌>>◌,
}
use attendance_tracker.Platform.{
  Platform, Payload, TokenType, access, refresh, other, Settings, Draws, minutes, days,
}

abbrev pub kind_eq : TokenType → TokenType → Bool
kind_eq access access = true
kind_eq refresh refresh = true
kind_eq other other = true
kind_eq _ _ = false

-- `int(payload.get("tv", 0))`
abbrev pub tv_of : Payload → ℕ
tv_of c = elim c.tv [ none ↦ 0 | some v ↦ v ]

-- The claims that every caller passes as `data`: the user's id and token version.
abbrev pub access_payload : Settings → Draws → User → Payload
access_payload st d user = record {
  sub = some user.id;
  tv = some user.token_version;
  kind = access;
  jti = some d.access_jti;
  exp = d.now + minutes st.access_token_expire_minutes;
}

abbrev pub refresh_payload : Settings → Draws → User → Payload
refresh_payload st d user = record {
  sub = some user.id;
  tv = some user.token_version;
  kind = refresh;
  jti = some d.refresh_jti;
  exp = d.now + days st.refresh_token_expire_days;
}

-- `create_access_token`
abbrev pub create_access_token : (p : Platform) → Settings → Draws → User → p.Token
create_access_token p st d user = p.encode (access_payload st d user)

-- `create_refresh_token`; the second part is the `jti` for the caller to store
abbrev pub create_refresh_token : (p : Platform) → Settings → Draws → User → p.Token × ℕ
create_refresh_token p st d user = (p.encode (refresh_payload st d user), d.refresh_jti)

-- `verify_token`
abbrev pub verify_token : (p : Platform) → ℕ → TokenType → p.Token → Option Payload
verify_token p now kind token = elim (p.decode now token) [
  | none ↦ none
  | some c ↦ if kind_eq c.kind kind then some c else none
]

pub record TokenPair (p : Platform) : Type 0 where
  pub access_token : p.Token
  pub refresh_token : p.Token
  pub expires_in : ℕ

abbrev pub invalid_credentials : Failure
invalid_credentials = http 401 "Invalid or expired refresh token"

-- The row that stores a new refresh token.
abbrev pub fresh_record : Settings → Draws → User → Option Text → RefreshTokenRecord
fresh_record st d user client_ip = record {
  jti = d.refresh_jti;
  user_id = user.id;
  organization_id = some user.organization_id;
  expires_at = d.now + days st.refresh_token_expire_days;
  revoked_at = none;
  replaced_by_jti = none;
  created_ip = client_ip;
}

abbrev pub add_refresh_token : RefreshTokenRecord → Db → Db
add_refresh_token r db = record db { refresh_tokens = db.refresh_tokens ++ r ∷ [] }

abbrev pub token_pair : (p : Platform) → Settings → Draws → User → TokenPair p
token_pair p st d user = record {
  access_token = create_access_token p st d user;
  refresh_token = (create_refresh_token p st d user).0;
  expires_in = st.access_token_expire_minutes * 60;
}

unfoldable pub issue_token_pair :
    (p : Platform) → Settings → Draws → User → Option Text → Handler (TokenPair p)
issue_token_pair p st d user client_ip = do
  modify (add_refresh_token (fresh_record st d user client_ip))
  commit
  pure (token_pair p st d user)

-- `RefreshTokenRecord.user_id == user_id` and `revoked_at IS NULL`
abbrev pub is_live_of : ℕ → RefreshTokenRecord → Bool
is_live_of user_id r = r.user_id == user_id && not (is_some r.revoked_at)

abbrev pub revoke : ℕ → RefreshTokenRecord → RefreshTokenRecord
revoke now r = record r { revoked_at = some now }

abbrev pub bump : User → User
bump u = record u { token_version = u.token_version + 1 }

abbrev pub revoke_sessions : ℕ → ℕ → Db → Db
revoke_sessions now user_id db = record db {
  refresh_tokens = update_where (is_live_of user_id) (revoke now) db.refresh_tokens;
  users = update_where (λ u. u.id == user_id) bump db.users;
}

-- The two updates of `revoke_all_user_tokens`, and the number of rows of the first.
unfoldable pub revoke_all_user_tokens : ℕ → ℕ → Handler ℕ
revoke_all_user_tokens now user_id = do
  revoked ← gets (λ db. count (is_live_of user_id) db.refresh_tokens)
  modify (revoke_sessions now user_id)
  commit
  pure revoked

-- `record.revoked_at = now` and `record.replaced_by_jti = new_jti`, on the row of the token.
abbrev pub replace : ℕ → ℕ → RefreshTokenRecord → RefreshTokenRecord
replace now new_jti r = record r { revoked_at = some now; replaced_by_jti = some new_jti }

abbrev pub replace_token : Settings → Draws → User → Option Text → ℕ → Db → Db
replace_token st d user client_ip jti db = record db {
  refresh_tokens =
      update_where (λ r. r.jti == jti) (replace d.now d.refresh_jti) db.refresh_tokens
      ++ fresh_record st d user client_ip ∷ [];
}

-- A revoked token that comes back: all sessions of its user end, and the request fails.
pub reject_reuse : ℕ → RefreshTokenRecord → Handler ⊤
unfolding revoke_all_user_tokens
reject_reuse now presented =
    if is_some presented.revoked_at
    then (do revoke_all_user_tokens now presented.user_id; raise invalid_credentials)
    else pure tt

-- The part of `rotate_refresh_token` that follows the lookup of the stored row.
pub rotate_found :
    (p : Platform)
    → Settings
    → Draws
    → Option Text
    → Payload
    → RefreshTokenRecord
    → Handler (TokenPair p × User)
unfolding reject_reuse
rotate_found p st d client_ip payload presented = do
  reject_reuse d.now presented
  raise_if (leb presented.expires_at d.now) invalid_credentials
  user ←
      or_raise (← gets (λ db. find (λ u. u.id == presented.user_id) db.users)) invalid_credentials
  raise_if (not user.is_active) invalid_credentials
  raise_if (not (tv_of payload == user.token_version)) invalid_credentials
  modify (replace_token st d user client_ip presented.jti)
  commit
  pure (token_pair p st d user, user)

unfoldable pub rotate_refresh_token :
    (p : Platform) → Settings → Draws → Option Text → p.Token → Handler (TokenPair p × User)
unfolding rotate_found
rotate_refresh_token p st d client_ip raw = do
  payload ← or_raise (p.decode d.now raw) invalid_credentials
  raise_if (not (kind_eq payload.kind refresh)) invalid_credentials
  jti ← or_raise payload.jti invalid_credentials
  presented ←
      or_raise (← gets (λ db. find (λ r. r.jti == jti) db.refresh_tokens)) invalid_credentials
  rotate_found p st d client_ip payload presented

abbrev pub revoke_jti : ℕ → ℕ → Db → Db
revoke_jti now jti db = record db {
  refresh_tokens =
      update_where (λ r. r.jti == jti && not (is_some r.revoked_at)) (revoke now) db.refresh_tokens;
}

-- `rowcount > 0`
unfoldable pub revoke_refresh_token : (p : Platform) → ℕ → p.Token → Handler Bool
revoke_refresh_token p now raw = elim (p.decode now raw) [
  | none ↦ pure false
  | some payload ↦ elim payload.jti [
    | none ↦ pure false
    | some jti ↦ do
      hit ← gets (λ db. count (λ r. r.jti == jti && not (is_some r.revoked_at)) db.refresh_tokens)
      modify (revoke_jti now jti)
      commit
      pure (ltb 0 hit)
  ]
]
