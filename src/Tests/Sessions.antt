-- ===== src/Tests/Sessions.antt =====
-- Witnesses for the theorems on tokens, identities, resets and sign-in.
use attendance_tracker.Prelude.{
  ◌↔◌, ◌≡◌, ◌≢◌, refl, none, some, true, false, List, [], ◌∷◌, codes, arith, count,
}
use attendance_tracker.Database.Rows.{Db, User, PasswordResetToken}
use attendance_tracker.Database.Session.{Effect, ok, err, request}
use attendance_tracker.Platform.{Payload, Settings, Draws}
use attendance_tracker.Tokens
use attendance_tracker.Tokens.Rotation.{user_of, rotated, rotate_exactly, Rotatable}
use attendance_tracker.Tokens.Reuse.{replay_ends_sessions}
use attendance_tracker.Identity.{get_current_user}
use attendance_tracker.Identity.Revocation.{get_current_user_sound}
use attendance_tracker.Reset
use attendance_tracker.Reset.OneTime.{create_leaves_one, usable_of}
use attendance_tracker.SignIn
use attendance_tracker.SignIn.Login.{login_on, login_exactly, LoginOutcome, MaySignIn}
use attendance_tracker.SignIn.Outcomes.{forgot_password_uniform}
use attendance_tracker.SignIn.Final.{
  Visit, sign_in, refresh, serve, stale_access_is_final, revoked_refresh_is_final,
  used_reset_is_final,
}
use attendance_tracker.Tests.{
  demo, settings, draws_at, ann, row, ticket, tables, refresh_claims, old_claims,
}

abbrev from_kiosk : SignIn.HttpRequest
from_kiosk = record { forwarded = none; host = some (codes "10.0.0.9") }

-- a rotation of Ann's token, then a sign-in under a wrong password
abbrev visits : List (Visit demo)
visits =
    record { draws = draws_at 100; http = from_kiosk; call = refresh refresh_claims }
    ∷ record {
      draws = draws_at 200;
      http = from_kiosk;
      call = sign_in (record {
        email = codes "ann@acme.com";
        password = codes "guess";
        organization_slug = codes "acme";
      });
    }
    ∷ []

stale_access_is_final_example :
    (request (get_current_user demo 300 (some old_claims)) (serve demo settings visits tables)).0
    ≢ ok ann
stale_access_is_final_example =
    stale_access_is_final demo settings tables visits ann ann old_claims old_claims 300 refl refl
      refl (omega arith)

abbrev spent : Db
spent = record tables { refresh_tokens = Tokens.replace 90 600 row ∷ [] }

revoked_refresh_is_final_example :
    (rotated demo settings (draws_at 300) none refresh_claims (serve demo settings visits spent)).0
    ≢ ok (Tokens.token_pair demo settings (draws_at 300) ann, ann)
revoked_refresh_is_final_example =
    revoked_refresh_is_final demo settings spent visits (Tokens.replace 90 600 row) 500
      refresh_claims refresh_claims (draws_at 300) none
      (Tokens.token_pair demo settings (draws_at 300) ann) ann refl refl refl refl

abbrev after_rotation : Db
after_rotation = Tokens.replace_token settings (draws_at 100) ann none 500 tables

abbrev can_rotate : Rotatable demo settings (draws_at 100) none refresh_claims tables ann
can_rotate = record {
  payload = refresh_claims;
  jti = 500;
  row = row;
  decoded = refl;
  is_refresh = refl;
  has_jti = refl;
  stored = refl;
  live = refl;
  unexpired = omega arith;
  owner = refl;
  active = refl;
  current = refl;
}

rotates :
    rotated demo settings (draws_at 100) none refresh_claims tables
    ≡ (ok (Tokens.token_pair demo settings (draws_at 100) ann, ann), after_rotation, [])
unfolding request Tokens.rotate_refresh_token
rotates = refl

abbrev quiet : List Effect
quiet = []

rotate_exactly_example :
    (rotated demo settings (draws_at 100) none refresh_claims tables
      ≡ (ok (Tokens.token_pair demo settings (draws_at 100) ann, ann), after_rotation, quiet))
    ↔ ((h : Rotatable demo settings (draws_at 100) none refresh_claims tables ann)
        × (Tokens.token_pair demo settings (draws_at 100) ann
            ≡ Tokens.token_pair demo settings (draws_at 100) ann)
        × (after_rotation ≡ Tokens.replace_token settings (draws_at 100) ann none h.row.jti tables)
        × (quiet ≡ quiet))
rotate_exactly_example =
    rotate_exactly demo settings (draws_at 100) none refresh_claims tables after_rotation
      (Tokens.token_pair demo settings (draws_at 100) ann) ann quiet

replay_ends_sessions_example :
    let (r, db, es) = rotated demo settings (draws_at 150) none refresh_claims after_rotation in
    (r ≡ err Tokens.invalid_credentials)
    × (count (Tokens.is_live_of 10) db.refresh_tokens ≡ 0)
    × (user_of 10 db ≡ some (Tokens.bump ann))
replay_ends_sessions_example =
    replay_ends_sessions demo settings (draws_at 100) none refresh_claims (draws_at 150) none tables
      after_rotation (Tokens.token_pair demo settings (draws_at 100) ann) ann [] rotates refl

abbrev current_claims : Payload
current_claims = record old_claims { tv = some 4 }

get_current_user_sound_example :
    (c : Payload) × (demo.decode 300 current_claims ≡ some c)
    × (c.kind ≡ attendance_tracker.Platform.access)
    × (c.sub ≡ some 10)
    × (user_of 10 tables ≡ some ann)
    × (ann.is_active ≡ true)
    × (Tokens.tv_of c ≡ 4)
    × ((request (get_current_user demo 300 (some current_claims)) tables).1 ≡ tables)
unfolding request get_current_user
get_current_user_sound_example = get_current_user_sound demo 300 current_claims tables ann refl

abbrev with_ticket : Db
with_ticket = record tables { reset_tokens = ticket ∷ [] }

abbrev after_ticket : Db
after_ticket = Tokens.revoke_sessions 100 10 (Reset.apply_reset 100 1077 10 9 with_ticket)

used_reset_is_final_example :
    (request (Reset.consume_reset_token demo 300 77 5) (serve demo settings visits after_ticket)
      ≡ (ok false, serve demo settings visits after_ticket, []))
    × (old : PasswordResetToken) × (Reset.reset_row 1077 with_ticket ≡ some old)
    × (user : User) × (old.user_id ≡ user.id)
    × (user_of user.id with_ticket ≡ some user)
    × (user_of user.id after_ticket ≡ some (Tokens.bump (Reset.set_password 9 user)))
    × (count (Tokens.is_live_of user.id) after_ticket.refresh_tokens ≡ 0)
unfolding request Reset.consume_reset_token
used_reset_is_final_example =
    used_reset_is_final demo settings with_ticket after_ticket visits 77 9 5 100 300 refl

create_leaves_one_example :
    let db' = Reset.store_reset_token settings 100 1077 10 none tables in
    (row : PasswordResetToken) × (Reset.reset_row 1077 db' ≡ some row)
    × (usable_of 4000 10 row ≡ true)
    × (count (usable_of 4000 10) db'.reset_tokens ≡ 1)
unfolding request Reset.create_reset_token
create_leaves_one_example =
    create_leaves_one demo settings (draws_at 100) ann none tables
      (Reset.store_reset_token settings 100 1077 10 none tables) 77 4000 refl (omega arith)

abbrev good_login : SignIn.LoginRequest
good_login = record {
  email = codes "ann@acme.com";
  password = codes "Secret12";
  organization_slug = codes "acme";
}

login_exactly_example :
    let out = login_on demo settings (draws_at 100) good_login from_kiosk tables in
    LoginOutcome demo settings (draws_at 100) good_login from_kiosk tables out
    × (((t : SignIn.TokenResponse demo) × (out.0 ≡ ok t))
        ↔ MaySignIn demo settings (draws_at 100) good_login from_kiosk tables)
login_exactly_example = login_exactly demo settings (draws_at 100) good_login from_kiosk tables

forgot_password_uniform_example :
    (request
      (SignIn.forgot_password demo settings
        (draws_at 100)
        (codes "no@one.com")
        (codes "acme")
        from_kiosk)
      tables).0
    ≡ ok (SignIn.generic_response true)
unfolding Reset.draw_token
forgot_password_uniform_example =
    forgot_password_uniform demo settings (draws_at 100) (codes "no@one.com") (codes "acme")
      from_kiosk tables (λ e. cc)
