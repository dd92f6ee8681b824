-- ===== src/Tests.antt =====
-- A small installation on which the theorems are applied: each witness applies one theorem to
-- concrete tables and inputs.
mod Sessions
mod Marks
mod Structure
mod Traffic
mod Vision
mod Registering
mod Listings
mod Setup
use attendance_tracker.Prelude.{
  ℕ, ◌≡◌, ◌≤◌, Option, none, some, Bool, true, false, List, [], ◌∷◌, Text, codes, leb, text_eq,
  if◌then◌else◌, arith, length, ◌==◌, ◌&&◌, ◌+◌, ◌-◌, ◌*◌, ◌++◌, ltb,
}
use attendance_tracker.Numerics.{Numerics}
use attendance_tracker.Database.Session.{ok}
use attendance_tracker.Database.Rows.{
  Db, empty, Organization, User, Role, superadmin, org_admin, member, RefreshTokenRecord,
  PasswordResetToken,
}
use attendance_tracker.Platform.{Platform, Payload, Settings, Draws, access, refresh, Decodes}

-- tokens are their claims, hashes are lengths, and the Unicode tables are those of ASCII
abbrev pub demo : Platform
demo = record {
  Token = Payload;
  encode = λ c. c;
  decode = λ now c. if leb now c.exp then some c else none;
  checkpw = λ s h. length s == h;
  hashpw = λ s salt. length s;
  hash_reset_token = λ t. t + 1000;
  hash_api_key = λ k. k + 2000;
  strip = λ s. s;
  lower = λ s. s;
  is_upper = λ c. leb 65 c && leb c 90;
  is_lower = λ c. leb 97 c && leb c 122;
  is_digit = λ c. leb 48 c && leb c 57;
}

pub demo_decodes : Decodes demo
demo_decodes now c h = ground arith

abbrev pub settings : Settings
settings = record {
  access_token_expire_minutes = 30;
  refresh_token_expire_days = 7;
  reset_token_expire_minutes = 60;
  attendance_dedupe_window_minutes = 10;
  email_enabled = true;
  enable_email = true;
}

abbrev pub draws_at : ℕ → Draws
draws_at now = record {
  now = now;
  access_jti = now + 1;
  refresh_jti = now + 2;
  raw_tokens = 77 ∷ [];
  salt = 5;
  new_id = now + 3;
}

abbrev pub acme : Organization
acme = record {
  id = 1;
  name = codes "Acme";
  slug = codes "acme";
  settings = [];
  max_users = 3;
  is_active = true;
}

-- the password is any text of eight characters
abbrev pub ann : User
ann = record {
  id = 10;
  organization_id = 1;
  external_id = some (codes "E1");
  name = codes "Ann";
  email = some (codes "ann@acme.com");
  phone = none;
  department_id = none;
  role = org_admin;
  password_hash = some 8;
  is_active = true;
  token_version = 4;
}

abbrev pub bob : User
bob = record {
  id = 11;
  organization_id = 1;
  external_id = none;
  name = codes "Bob";
  email = some (codes "bob@acme.com");
  phone = none;
  department_id = none;
  role = member;
  password_hash = none;
  is_active = true;
  token_version = 0;
}

abbrev pub row : RefreshTokenRecord
row = record {
  jti = 500;
  user_id = 10;
  organization_id = some 1;
  expires_at = 9000;
  revoked_at = none;
  replaced_by_jti = none;
  created_ip = none;
}

abbrev pub ticket : PasswordResetToken
ticket = record {
  token_hash = 1077;
  user_id = 10;
  expires_at = 5000;
  used_at = none;
  requested_ip = none;
}

abbrev pub tables : Db
tables = record empty {
  organizations = acme ∷ [];
  users = ann ∷ bob ∷ [];
  refresh_tokens = row ∷ [];
}

-- the claims of Ann's stored refresh token
abbrev pub refresh_claims : Payload
refresh_claims = record { sub = some 10; tv = some 4; kind = refresh; jti = some 500; exp = 9000 }

-- the claims of an access token of version 3
abbrev pub old_claims : Payload
old_claims = record { sub = some 10; tv = some 3; kind = access; jti = some 8; exp = 9000 }

abbrev first_byte : List ℕ → ℕ
first_byte [] = 0
first_byte (b ∷ bytes) = b

abbrev positions : ℕ → List ℕ → List ℕ
positions n [] = []
positions n (x ∷ xs) = n ∷ positions (n + 1) xs

-- floats, vectors and images are numbers, and every image shows a face
abbrev pub numbers : Numerics
numbers = record {
  Float = ℕ;
  decimal = λ m e. m;
  parse = λ s. some (length s);
  plus = λ a b. a + b;
  minus = λ a b. a - b;
  times = λ a b. a * b;
  over = λ a b. a;
  less = ltb;
  at_least = λ a b. leb b a;
  truncate = λ a. a;
  round = λ n a. a;
  hypot = λ a b. a + b;
  mean = λ xs. 9;
  Embedding = ℕ;
  dot = λ a b. a * b;
  to_bytes = λ e. e ∷ 0 ∷ 0 ∷ 0 ∷ [];
  of_bytes = first_byte;
  mean_embedding = λ es. 5;
  argsort = λ scores. positions 0 scores;
  Index = List ℕ;
  build_index = λ xs. xs;
  index_add = λ x xs. xs ++ x ∷ [];
  index_reset = λ xs. [];
  search = λ xs q k. [];
  Image = ℕ;
  height = λ i. 200;
  width = λ i. 200;
  texture = λ i. i;
  bgr_to_rgb = λ i. i;
  sharpness = λ i. 200;
  brightness = λ i. 100;
  contrast = λ i. 400;
  b64decode = λ s. some s;
  imdecode = λ bytes. some (length bytes);
  detect_face = λ i. some i;
  embed = λ i. i;
  Mesh = ℕ;
  mesh = λ i m. (ok (some (λ k. (3, 4))), m);
}
