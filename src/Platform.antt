-- ===== src/Platform.antt =====
-- What the program takes from packages and tables that are not its code: the JWT codec of
-- `jose`, bcrypt, HMAC-SHA256, and Python's Unicode tables. Also the configuration that the
-- modelled code reads (src/config.py), and what one request draws from the clock and from
-- `secrets`.
use attendance_tracker.Prelude.{ℕ, ◌*◌, ◌≤◌, ◌≡◌, Text, Option, some, Bool, List}

pub data TokenType : Type 0 where
  access refresh other : TokenType

-- The claims of a token that has `exp`, `type`, `sub` and `jti` (`decode_token` requires them).
-- `sub` and `jti` are none where they are no UUID and empty; `tv` is none where it is absent.
pub record Payload : Type 0 where
  pub sub : Option ℕ
  pub tv : Option ℕ
  pub kind : TokenType
  pub jti : Option ℕ
  pub exp : ℕ

pub record Platform : Type 1 where
  pub Token : Type 0
  -- `jwt.encode` under the server's secret
  pub encode : Payload → Token
  -- `jwt.decode` at an instant; none is `JWTError`
  pub decode : ℕ → Token → Option Payload
  -- `bcrypt.checkpw(password, hash)`, false where it raises
  pub checkpw : Text → ℕ → Bool
  -- `bcrypt.hashpw(password, salt)`
  pub hashpw : Text → ℕ → ℕ
  -- `_domain_hash("password-reset", token)` and `_domain_hash("api-key", key)`
  pub hash_reset_token : ℕ → ℕ
  pub hash_api_key : ℕ → ℕ
  pub strip : Text → Text
  pub lower : Text → Text
  pub is_upper : ℕ → Bool
  pub is_lower : ℕ → Bool
  pub is_digit : ℕ → Bool

-- A decoded token is the encoded one while it has not expired.
abbrev pub Decodes : Platform → Type 0
Decodes p = (now : ℕ) (c : Payload) → now ≤ c.exp → p.decode now (p.encode c) ≡ some c

pub record Settings : Type 0 where
  pub access_token_expire_minutes : ℕ
  pub refresh_token_expire_days : ℕ
  pub reset_token_expire_minutes : ℕ
  pub attendance_dedupe_window_minutes : ℕ
  -- `settings.email.enabled`, `settings.features.enable_email`
  pub email_enabled : Bool
  pub enable_email : Bool

-- The instant of the request, and the random values that it draws: ids of new tokens and rows,
-- candidates for a reset token, a bcrypt salt.
pub record Draws : Type 0 where
  pub now : ℕ
  pub access_jti : ℕ
  pub refresh_jti : ℕ
  pub raw_tokens : List ℕ
  pub salt : ℕ
  pub new_id : ℕ

-- `timedelta(seconds=n)`, `timedelta(minutes=n)`, `timedelta(days=n)`
abbrev pub seconds : ℕ → ℕ
seconds n = n * 1000000

abbrev pub minutes : ℕ → ℕ
minutes n = n * 60000000

abbrev pub days : ℕ → ℕ
days n = n * 86400000000
