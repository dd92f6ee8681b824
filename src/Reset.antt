-- ===== src/Reset.antt =====
-- src/services/password_reset.py: one-time tokens that replace a password.
pub mod OneTime
use attendance_tracker.Prelude.{
  ℕ, ◌+◌, ◌-◌, Text, Option, none, some, Bool, true, false, not, ◌&&◌, List, [], ◌∷◌, ◌++◌, ◌==◌,
  if◌then◌else◌, is_some, find, update_where, text_eq,
}
use attendance_tracker.Database.Rows.{Db, User, Organization, PasswordResetToken, is_usable}
use attendance_tracker.Database.Session.{
  Failure, internal, Handler, pure, raise, gets, or_raise, raise_if, modify, commit, ◌>>=◌, ◌>>◌,
}
use attendance_tracker.Platform.{Platform, Settings, Draws, minutes, seconds}
use attendance_tracker.Tokens.{revoke_all_user_tokens}

abbrev pub reset_row : ℕ → Db → Option PasswordResetToken
reset_row digest db = find (λ t. t.token_hash == digest) db.reset_tokens

-- The loop over at most five draws: the first raw token whose digest is not stored.
unfoldable pub draw_token : Platform → Db → List ℕ → Option ℕ
draw_token p db [] = none
draw_token p db (raw ∷ rest) =
    let later = draw_token p db rest in
    if is_some (reset_row (p.hash_reset_token raw) db) then later else some raw

-- `user_id == user.id` and `used_at IS NULL`
abbrev pub is_pending_of : ℕ → PasswordResetToken → Bool
is_pending_of user_id t = t.user_id == user_id && not (is_some t.used_at)

-- `stale.expires_at = now - 1 s`
abbrev pub expire : ℕ → PasswordResetToken → PasswordResetToken
expire now t = record t { expires_at = now - seconds 1 }

abbrev pub new_reset_token : Settings → ℕ → ℕ → ℕ → Option Text → PasswordResetToken
new_reset_token st now digest user_id client_ip = record {
  token_hash = digest;
  user_id = user_id;
  expires_at = now + minutes st.reset_token_expire_minutes;
  used_at = none;
  requested_ip = client_ip;
}

-- The new row is not flushed when the pending rows are queried, so they are the stored ones.
abbrev pub store_reset_token : Settings → ℕ → ℕ → ℕ → Option Text → Db → Db
store_reset_token st now digest user_id client_ip db = record db {
  reset_tokens =
      update_where (is_pending_of user_id) (expire now) db.reset_tokens
      ++ new_reset_token st now digest user_id client_ip ∷ [];
}

-- the raw token; the row is stored
unfoldable pub create_reset_token : Platform → Settings → Draws → User → Option Text → Handler ℕ
unfolding draw_token
create_reset_token p st d user client_ip = do
  raw ←
      or_raise (← gets (λ db. draw_token p db d.raw_tokens))
        (internal "Unable to generate unique reset token")
  modify (store_reset_token st d.now (p.hash_reset_token raw) user.id client_ip)
  commit
  pure raw

abbrev pub use_token : ℕ → PasswordResetToken → PasswordResetToken
use_token now t = record t { used_at = some now }

abbrev pub set_password : ℕ → User → User
set_password new_hash u = record u { password_hash = some new_hash }

abbrev pub apply_reset : ℕ → ℕ → ℕ → ℕ → Db → Db
apply_reset now digest user_id new_hash db = record db {
  reset_tokens = update_where (λ t. t.token_hash == digest) (use_token now) db.reset_tokens;
  users = update_where (λ u. u.id == user_id) (set_password new_hash) db.users;
}

abbrev use_for : ℕ → ℕ → ℕ → User → Handler Bool
use_for now digest new_hash user =
    if user.is_active
    then (do
      modify (apply_reset now digest user.id new_hash)
      commit
      revoke_all_user_tokens now user.id
      pure true)
    else pure false

abbrev use_row : ℕ → ℕ → ℕ → PasswordResetToken → Handler Bool
use_row now digest new_hash row =
    if is_usable now row
    then (do
      found ← gets (λ db. find (λ u. u.id == row.user_id) db.users)
      elim found [ none ↦ pure false | some user ↦ use_for now digest new_hash user ])
    else pure false

unfoldable pub consume_reset_token : Platform → ℕ → ℕ → ℕ → Handler Bool
unfolding revoke_all_user_tokens
consume_reset_token p now raw_token new_hash = do
  found ← gets (reset_row (p.hash_reset_token raw_token))
  elim found [
    | none ↦ pure false
    | some row ↦ use_row now (p.hash_reset_token raw_token) new_hash row
  ]

-- `User.email == ...`; a user without an address equals none
abbrev pub has_email : Text → User → Bool
has_email address u = elim u.email [ none ↦ false | some e ↦ text_eq e address ]

abbrev pub member_with_email : ℕ → Text → User → Bool
member_with_email organization_id address u =
    u.organization_id == organization_id && has_email address u

unfoldable pub resolve_user_for_reset : Platform → Organization → Text → Handler (Option User)
unfolding text_eq
resolve_user_for_reset p organization email =
    gets λ db. find (member_with_email organization.id (p.lower (p.strip email))) db.users
