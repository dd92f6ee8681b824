-- ===== src/SignIn/Final.antt =====
-- What stays ended, whatever requests follow.
use attendance_tracker.Prelude.{
  ℕ, ◌<◌, ◌≡◌, ◌≢◌, Text, Option, none, some, List, [], ◌∷◌, is_some, arith, ◌∙◌, sym, ap, Bool,
  true, false, count,
}
use attendance_tracker.Database.Rows.{Db, User, RefreshTokenRecord, PasswordResetToken}
use attendance_tracker.Database.Session.{request, ok, ◌>>=◌}
use attendance_tracker.Database.Keeps.{Keeps-request, keeps_rules}
use attendance_tracker.Platform.{Platform, Settings, Draws, Payload}
use attendance_tracker.Tokens
use attendance_tracker.Tokens.{tv_of, bump, is_live_of}
use attendance_tracker.Tokens.Rotation.{row_of, user_of, rotated, rotate_sound}
use attendance_tracker.Tokens.Later.{Later, Later-refl}
use attendance_tracker.Identity.{get_current_user}
use attendance_tracker.Identity.Revocation.{get_current_user_sound}
use attendance_tracker.Reset
use attendance_tracker.Reset.OneTime.{consume_once, consume_used}
use attendance_tracker.SignIn
use attendance_tracker.SignIn.History.{
  Later-login, Later-refresh_token, Later-logout, Later-forgot_password, Later-reset_password,
  Later-change_password, Later-get_current_user,
}

-- A request to one of the routes, with the credentials that its dependencies read.
pub data Call (p : Platform) : Type 0 where
  sign_in : SignIn.LoginRequest → Call p
  refresh : p.Token → Call p
  sign_out : Option p.Token → p.Token → Call p
  forgot : Text → Text → Call p
  reset : ℕ → Text → Call p
  change : Option p.Token → Text → Text → Call p

pub record Visit (p : Platform) : Type 0 where
  pub draws : Draws
  pub http : SignIn.HttpRequest
  pub call : Call p

abbrev version_of : Option User → ℕ
version_of none = 0
version_of (some u) = u.token_version

abbrev claimed : Option Payload → ℕ
claimed none = 0
claimed (some c) = tv_of c

abbrev subject : Option Payload → Option ℕ
subject none = none
subject (some c) = c.sub

abbrev token_id : Option Payload → Option ℕ
token_id none = none
token_id (some c) = c.jti

abbrev owner_of : Option ℕ → Db → Option User
owner_of none db = none
owner_of (some id) db = user_of id db

abbrev stored : Option ℕ → Db → Option RefreshTokenRecord
stored none db = none
stored (some jti) db = row_of jti db

abbrev is_revoked : Option RefreshTokenRecord → Bool
is_revoked none = false
is_revoked (some r) = is_some r.revoked_at

module _ (p : Platform) (st : Settings) where
  pub handle : Draws → SignIn.HttpRequest → Call p → Db → Db
  handle d r (sign_in body) db = (request (SignIn.login p st d body r) db).1
  handle d r (refresh raw) db = (request (SignIn.refresh_token p st d raw r) db).1
  handle d r (sign_out t raw) db =
      (request (do u ← get_current_user p d.now t; SignIn.logout p d u raw r) db).1
  handle d r (forgot email slug) db = (request (SignIn.forgot_password p st d email slug r) db).1
  handle d r (reset raw new) db = (request (SignIn.reset_password p d raw new r) db).1
  handle d r (change t current new) db =
      (request (do u ← get_current_user p d.now t; SignIn.change_password p d u current new r) db).1

  pub serve : List (Visit p) → Db → Db
  unfolding handle
  serve [] db = db
  serve (v ∷ vs) db = serve vs (handle v.draws v.http v.call db)

  Later-handle :
      (db : Db) (d : Draws) (r : SignIn.HttpRequest) (c : Call p) (db' : Db)
      → Later db db'
      → Later db (handle d r c db')
  unfolding handle
  Later-handle db d r (sign_in body) db' h = Keeps-request _ db' (Later-login db p st d body r) h
  Later-handle db d r (refresh raw) db' h =
      Keeps-request _ db' (Later-refresh_token db p st d raw r) h
  Later-handle db d r (sign_out t raw) db' h =
      Keeps-request {P = Later db} (do u ← get_current_user p d.now t; SignIn.logout p d u raw r)
        db' (search (keeps_rules, Later-get_current_user db p st d, Later-logout db p st d)) h
  Later-handle db d r (forgot email slug) db' h =
      Keeps-request _ db' (Later-forgot_password db p st d email slug r) h
  Later-handle db d r (reset raw new) db' h =
      Keeps-request _ db' (Later-reset_password db p st d raw new r) h
  Later-handle db d r (change t current new) db' h =
      Keeps-request {P = Later db}
        (do u ← get_current_user p d.now t; SignIn.change_password p d u current new r) db'
        (search (keeps_rules, Later-get_current_user db p st d, Later-change_password db p st d)) h

  Later-serve : (db db' : Db) (vs : List (Visit p)) → Later db db' → Later db (serve vs db')
  unfolding serve
  Later-serve db db' [] h = h
  Later-serve db db' (v ∷ vs) h =
      Later-serve db (handle v.draws v.http v.call db') vs
        (Later-handle db v.draws v.http v.call db' h)

  -- `get_current_user` never accepts an access token of an older version than its user's, for any
  -- account, whatever requests to the sign-in routes come in between, and whenever it is presented.
  -- (`bearer_or_none` does not read the version.)
  pub stale_access_is_final :
      (db : Db) (vs : List (Visit p)) (u v : User) (c : Payload) (token : p.Token) (now : ℕ)
      → user_of u.id db ≡ some u
      → p.decode now token ≡ some c
      → c.sub ≡ some u.id
      → tv_of c < u.token_version
      → (request (get_current_user p now (some token)) (serve vs db)).0 ≢ ok v
  stale_access_is_final db vs u v c token now found e n old accepted =
      let (c', e', k, n', found', a, current, same) =
        get_current_user_sound p now token (serve vs db) v accepted in
      let (u', later, rise) = (Later-serve db db vs (Later-refl db)).versions u.id u found in
      let payload : some c ≡ some c' = sym e ∙ e' in
      let key : some u.id ≡ some v.id = sym n ∙ ap subject payload ∙ n' in
      let user : some u' ≡ some v =
        sym later ∙ ap (λ (o : Option ℕ). owner_of o (serve vs db)) key ∙ found' in
      omega (arith, ap version_of user, ap claimed payload, current, rise, old)

  -- A refresh token that decodes to the id of a row that is revoked is never rotated again.
  pub revoked_refresh_is_final :
      (db : Db) (vs : List (Visit p)) (row : RefreshTokenRecord) (jti : ℕ) (c : Payload)
      (raw : p.Token) (d : Draws) (ip : Option Text) (pair : Tokens.TokenPair p) (u : User)
      → row_of jti db ≡ some row
      → is_some row.revoked_at ≡ true
      → p.decode d.now raw ≡ some c
      → c.jti ≡ some jti
      → (rotated p st d ip raw (serve vs db)).0 ≢ ok (pair, u)
  revoked_refresh_is_final db vs row jti c raw d ip pair u found gone e n accepted =
      let (row', later, gone') =
        (Later-serve db db vs (Later-refl db)).revoked jti row found gone in
      let ready = rotate_sound p st d ip raw (serve vs db) _ pair u _ (λ i. (
        accepted i,
        (rotated p st d ip raw (serve vs db)).1,
        (rotated p st d ip raw (serve vs db)).2,
      )) in
      let key : some jti ≡ some ready.jti =
        sym n ∙ ap token_id (sym e ∙ ready.decoded) ∙ ready.has_jti in
      let row : some row' ≡ some ready.row =
        sym later ∙ ap (λ (o : Option ℕ). stored o (serve vs db)) key ∙ ready.stored in
      cc (gone', ap is_revoked row, ap (λ (o : Option ℕ). is_some o) ready.live)

  -- A reset token that was consumed is refused for ever: whatever requests to the sign-in routes
  -- come in between, at any instant and with any new password, consuming it again answers no and
  -- leaves the tables as they are. When it was consumed, the user of its row got the new password
  -- and a higher token version, and no live session was left.
  pub used_reset_is_final :
      (db db' : Db) (vs : List (Visit p)) (raw new_hash other_hash now now' : ℕ)
      → request (Reset.consume_reset_token p now raw new_hash) db ≡ (ok true, db', [])
      → (request (Reset.consume_reset_token p now' raw other_hash) (serve vs db')
          ≡ (ok false, serve vs db', []))
        × (old : PasswordResetToken) × (Reset.reset_row (p.hash_reset_token raw) db ≡ some old)
        × (user : User) × (old.user_id ≡ user.id)
        × (user_of user.id db ≡ some user)
        × (user_of user.id db' ≡ some (bump (Reset.set_password new_hash user)))
        × (count (is_live_of user.id) db'.refresh_tokens ≡ 0)
  used_reset_is_final db db' vs raw new_hash other_hash now now' h =
      let (consumed, old, was, user, whose, owned, renewed, ended) =
        consume_once p raw new_hash now db db' h in
      let (row, found, gone) = consumed in
      let (row', later, gone') =
        (Later-serve db' db' vs (Later-refl db')).used (p.hash_reset_token raw) row found gone in
      (
        consume_used p raw other_hash now' (serve vs db') row' later gone',
        old,
        was,
        user,
        whose,
        owned,
        renewed,
        ended,
      )
