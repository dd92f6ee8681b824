-- ===== src/SignIn/Outcomes.antt =====
-- What the sign-in routes answer and leave in the tables, on every path.
use attendance_tracker.Prelude.{
  ℕ, ◌≡◌, ◌≢◌, refl, Text, none, some, true, List, arith, ◌==◌, ⊤, count, find-update_where,
  updated, map_option, utf8_length, ◌≤◌,
}
use attendance_tracker.Database.Rows.{Db, User}
use attendance_tracker.Database.Session.{Result, Effect, ok, err, request}
use attendance_tracker.Platform.{Platform, Settings, Draws}
use attendance_tracker.Tokens.{is_live_of, bump}
use attendance_tracker.Tokens.Rotation.{user_of, count-revoke_sessions}
use attendance_tracker.Tokens.Reuse.{user_of-revoke_sessions}
use attendance_tracker.Reset
use attendance_tracker.Passwords.{validate_password_strength, get_password_hash}
use attendance_tracker.SignIn

-- Asking for a reset mail gets one answer, whoever exists: it depends on the settings alone, as
-- long as a fresh token can be drawn.
pub forgot_password_uniform :
    (p : Platform) (st : Settings) (d : Draws) (email slug : Text) (r : SignIn.HttpRequest)
    (db : Db)
    → Reset.draw_token p db d.raw_tokens ≢ none
    → (request (SignIn.forgot_password p st d email slug r) db).0
      ≡ ok (SignIn.generic_response st.email_enabled)
unfolding SignIn.forgot_password request
forgot_password_uniform p st d email slug r db fresh = ground arith

module _ (p : Platform) (d : Draws) (user : User) (current new : Text)
    (r : SignIn.HttpRequest) where
  abbrev pub changed : Db → Result ⊤ × Db × List Effect
  changed db = request (SignIn.change_password p d user current new r) db

  -- what a call left in the tables, by how it ended
  abbrev ChangeOutcome : Db → Result ⊤ × Db × List Effect → Type 0
  ChangeOutcome db (err f, db', es) = db' ≡ db
  ChangeOutcome db (ok done, db', es) =
      (SignIn.password_ok p current user ≡ true)
      × (user_of user.id db' ≡ some (bump (Reset.set_password (p.hashpw new d.salt) user)))
      × (count (is_live_of user.id) db'.refresh_tokens ≡ 0)

  user_of-store_password :
      (new_hash : ℕ) (db : Db)
      → user_of user.id (SignIn.store_password user.id new_hash db)
        ≡ map_option
            (updated (λ u. u.id == user.id) (Reset.set_password new_hash))
            (user_of user.id db)
  user_of-store_password new_hash db =
      find-update_where (λ (u : User). u.id == user.id) (λ u. u.id == user.id)
        (Reset.set_password new_hash) db.users (λ u. refl)

  -- For a current user as stored: a change of password that fails leaves the tables as they are.
  -- One that succeeds was given the current password; the user then has a new hash and a higher
  -- token version, and no live session.
  pub change_password_cases :
      (db : Db) → user_of user.id db ≡ some user → ChangeOutcome db (changed db)
  unfolding SignIn.change_password request
  change_password_cases db found = ground (
    arith,
    found,
    user_of-store_password (p.hashpw new d.salt) db,
    user_of-revoke_sessions d.now user.id user.id
        (SignIn.store_password user.id (p.hashpw new d.salt) db),
    count-revoke_sessions d.now user.id (SignIn.store_password user.id (p.hashpw new d.salt) db),
  )

  -- A change of password is accepted where the current password is right and the new one is strong
  -- and of at most 72 bytes.
  pub change_password_accepts :
      (db : Db)
      → SignIn.password_ok p current user ≡ true
      → (validate_password_strength p new).0 ≡ true
      → utf8_length new ≤ 72
      → (changed db).0 ≡ ok tt
  unfolding SignIn.change_password get_password_hash request
  change_password_accepts db right strong short = ground (arith, right, strong, short)
