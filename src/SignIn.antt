-- ===== src/SignIn.antt =====
-- src/api/routes/auth.py: sign-in, refresh, sign-out, and the three ways to change a password.
-- The call of `verify_password` on a dummy hash only spends time, so it is left out; so are log
-- lines. A request is the parsed body (src/api/schemas/auth.py) with its two address headers.
pub mod Login
pub mod Outcomes
pub mod History
pub mod Final
use attendance_tracker.Prelude.{
  ℕ, String, Text, Option, none, some, Bool, true, false, not, ◌&&◌, List, [], ◌∷◌, ◌++◌, ⊤, ◌==◌,
  if◌then◌else◌, find, text_eq, update_where, take,
}
use attendance_tracker.Database.Rows.{Db, User, Organization, Role, Value, str, text}
use attendance_tracker.Database.Session.{
  Failure, http, Handler, pure, raise, gets, or_raise, raise_if, modify, commit, emit,
  send_reset_email, ◌>>=◌, ◌>>◌,
}
use attendance_tracker.Platform.{Platform, Settings, Draws}
use attendance_tracker.Audit.{entry, record_audit, record_audit_now}
use attendance_tracker.Passwords.{
  verify_password, get_password_hash, validate_password_strength, hash_too_long,
}
use attendance_tracker.Reset.{
  create_reset_token, consume_reset_token, resolve_user_for_reset, member_with_email, set_password,
}
use attendance_tracker.Tokens.{
  TokenPair, issue_token_pair, rotate_refresh_token, revoke_refresh_token, revoke_all_user_tokens,
}

-- `request.headers.get("x-forwarded-for")`, none if absent or empty, and `request.client.host`
pub record HttpRequest : Type 0 where
  pub forwarded : Option Text
  pub host : Option Text

-- `s.split(",")[0]`
unfoldable pub first_field : Text → Text
first_field [] = []
first_field (c ∷ s) = let rest = first_field s in if c == b',' then [] else c ∷ rest

-- `_client_ip`
unfoldable pub client_ip : Platform → HttpRequest → Option Text
unfolding first_field
client_ip p r = elim r.forwarded [
  | some f ↦ some (take 45 (p.strip (first_field f)))
  | none ↦ r.host
]

pub record LoginRequest : Type 0 where
  pub email : Text
  pub password : Text
  pub organization_slug : Text

pub record TokenResponse (p : Platform) : Type 0 where
  pub pair : TokenPair p
  pub user_id : ℕ
  pub user_name : Text
  pub organization_id : ℕ
  pub role : Role

abbrev pub token_response : (p : Platform) → TokenPair p → User → ℕ → TokenResponse p
token_response p pair user organization_id = record {
  pair = pair;
  user_id = user.id;
  user_name = user.name;
  organization_id = organization_id;
  role = user.role;
}

abbrev pub bad_login : Failure
bad_login = http 401 "Invalid credentials"

abbrev pub reason : String → List (String × Value)
reason r = ("reason", str r) ∷ []

-- `user.password_hash is not None and verify_password(...)`
abbrev pub password_ok : Platform → Text → User → Bool
password_ok p password user = elim user.password_hash [
  | none ↦ false
  | some h ↦ verify_password p password h
]

-- an audit row that is committed at once, and the answer
abbrev pub refuse :
    {A : Type 0} → Option ℕ → Option ℕ → List (String × Value) → Option Text → Failure → Handler A
refuse organization_id actor_id details ip failure = do
  record_audit_now (entry "auth.login_failed" organization_id actor_id none details ip)
  raise failure

abbrev pub login_user :
    (p : Platform)
    → Settings
    → Draws
    → LoginRequest
    → Option Text
    → Organization
    → User
    → Handler (TokenResponse p)
login_user p st d request ip org user =
    if not (password_ok p request.password user)
    then refuse (some org.id) (some user.id) (reason "bad_password") ip bad_login
    else if not user.is_active
    then refuse (some org.id) (some user.id) (reason "user_inactive") ip
        (http 403 "User account is inactive")
    else (do
      pair ← issue_token_pair p st d user ip
      record_audit (entry "auth.login_success" (some org.id) (some user.id) none [] ip)
      pure (token_response p pair user org.id))

abbrev pub login_org :
    (p : Platform)
    → Settings
    → Draws
    → LoginRequest
    → Option Text
    → Organization
    → Handler (TokenResponse p)
login_org p st d request ip org =
    if not org.is_active
    then refuse (some org.id) none (reason "organization_inactive") ip bad_login
    else (do
      found ← gets λ db. find (member_with_email org.id (p.strip (p.lower request.email))) db.users
      elim found [
        | none ↦ refuse (some org.id) none (reason "unknown_user") ip bad_login
        | some user ↦ login_user p st d request ip org user
      ])

abbrev pub org_of_slug : Text → Db → Option Organization
org_of_slug slug db = find (λ o. text_eq o.slug slug) db.organizations

unfoldable pub login :
    (p : Platform) → Settings → Draws → LoginRequest → HttpRequest → Handler (TokenResponse p)
unfolding client_ip issue_token_pair verify_password
login p st d request http_request = do
  found ← gets (org_of_slug request.organization_slug)
  elim found [
    | none ↦
        refuse none none
          (("reason", str "unknown_organization")
            ∷ ("org_slug", text request.organization_slug)
            ∷ [])
          (client_ip p http_request) bad_login
    | some org ↦ login_org p st d request (client_ip p http_request) org
  ]

unfoldable pub refresh_token :
    (p : Platform) → Settings → Draws → p.Token → HttpRequest → Handler (TokenResponse p)
unfolding rotate_refresh_token client_ip
refresh_token p st d raw http_request = do
  (pair, user) ← rotate_refresh_token p st d (client_ip p http_request) raw
  pure (token_response p pair user user.organization_id)

unfoldable pub logout : (p : Platform) → Draws → User → p.Token → HttpRequest → Handler ⊤
unfolding revoke_refresh_token revoke_all_user_tokens client_ip
logout p d current_user raw http_request = do
  revoke_refresh_token p d.now raw
  revoke_all_user_tokens d.now current_user.id
  record_audit (
      entry "auth.logout" (some current_user.organization_id) (some current_user.id) none []
        (client_ip p http_request))

-- The answer of `forgot_password`, the same on every path.
pub data ResetAnswer : Type 0 where
  generic_response : Bool → ResetAnswer

abbrev mail_reset : Settings → User → ℕ → Handler ⊤
mail_reset st user raw =
    if st.email_enabled && st.enable_email then emit (send_reset_email user.id raw) else pure tt

abbrev pub live_org : Text → Db → Option Organization
live_org slug db = elim (org_of_slug slug db) [
  | none ↦ none
  | some org ↦ if org.is_active then some org else none
]

abbrev start_reset : Platform → Settings → Draws → Organization → Option Text → User → Handler ⊤
start_reset p st d org ip user =
    if user.is_active
    then (do
      raw ← create_reset_token p st d user ip
      mail_reset st user raw
      record_audit (entry "auth.password_reset_requested" (some org.id) (some user.id) none [] ip))
    else pure tt

-- `if user is not None and user.is_active: ...`
pub start_if_found :
    Platform → Settings → Draws → Organization → Option Text → Option User → Handler ⊤
unfolding create_reset_token
start_if_found p st d org ip none = pure tt
start_if_found p st d org ip (some user) = start_reset p st d org ip user

unfoldable pub forgot_password :
    Platform → Settings → Draws → Text → Text → HttpRequest → Handler ResetAnswer
unfolding start_if_found resolve_user_for_reset client_ip
forgot_password p st d email slug http_request = do
  org ← gets (live_org slug)
  elim org [
    | none ↦ (do
      record_audit_now (
          entry "auth.password_reset_requested" none none none
            (("reason", str "unknown_or_inactive_org") ∷ ("org_slug", text slug) ∷ [])
            (client_ip p http_request))
      pure (generic_response st.email_enabled))
    | some o ↦ (do
      user ← resolve_user_for_reset p o email
      start_if_found p st d o (client_ip p http_request) user
      pure (generic_response st.email_enabled))
  ]

abbrev pub require_strong : Platform → Text → Handler ⊤
require_strong p password =
    raise_if (not (validate_password_strength p password).0)
      (http 400 (validate_password_strength p password).1)

unfoldable pub reset_password : Platform → Draws → ℕ → Text → HttpRequest → Handler ⊤
unfolding validate_password_strength get_password_hash consume_reset_token client_ip
reset_password p d raw_token new_password http_request = do
  require_strong p new_password
  new_hash ← or_raise (get_password_hash p d.salt new_password) (http 400 hash_too_long)
  consumed ← consume_reset_token p d.now raw_token new_hash
  raise_if (not consumed) (http 400 "Invalid or expired reset token")
  record_audit (entry "auth.password_reset_completed" none none none [] (client_ip p http_request))

abbrev pub store_password : ℕ → ℕ → Db → Db
store_password user_id new_hash db = record db {
  users = update_where (λ u. u.id == user_id) (set_password new_hash) db.users;
}

unfoldable pub change_password : Platform → Draws → User → Text → Text → HttpRequest → Handler ⊤
unfolding validate_password_strength get_password_hash verify_password revoke_all_user_tokens
    client_ip
change_password p d current_user current_password new_password http_request = do
  raise_if (not (password_ok p current_password current_user))
      (http 401 "Current password is incorrect")
  require_strong p new_password
  new_hash ← or_raise (get_password_hash p d.salt new_password) (http 400 hash_too_long)
  modify (store_password current_user.id new_hash)
  commit
  revoke_all_user_tokens d.now current_user.id
  record_audit (
      entry "auth.password_changed" (some current_user.organization_id) (some current_user.id) none
        [] (client_ip p http_request))
