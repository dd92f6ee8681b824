-- ===== src/Tokens/Reuse.antt =====
-- A refresh token that comes back after its rotation ends every session of its user.
use attendance_tracker.Prelude.{
  ℕ, ◌≡◌, refl, Text, Option, some, List, [], ◌∷◌, ap, ◌∙◌, sym, arith, subst, ◌==◌, count,
  update_where, find-append, find-update_where, updated, map_option, find_holds,
}
use attendance_tracker.Database.Rows.{Db, User, RefreshTokenRecord}
use attendance_tracker.Database.Session.{Result, ok, err, Effect, request}
use attendance_tracker.Platform.{Platform, Payload, refresh, Settings, Draws}
use attendance_tracker.Tokens
use attendance_tracker.Tokens.Rotation.{
  row_of, user_of, row_of_key, user_of_key, rotated, rotate_sound, rotate_accepts,
  count-revoke_sessions,
}

pub user_of-revoke_sessions :
    (now user_id id : ℕ) (db : Db)
    → user_of id (Tokens.revoke_sessions now user_id db)
      ≡ map_option (updated (λ u. u.id == user_id) Tokens.bump) (user_of id db)
user_of-revoke_sessions now user_id id db =
    find-update_where (λ u. u.id == id) (λ u. u.id == user_id) Tokens.bump db.users (λ u. refl)

-- After a rotation the presented token is stored as revoked and replaced.
pub row_of-replace_token :
    (st : Settings) (d : Draws) (user : User) (ip : Option Text) (jti : ℕ) (db : Db)
    {row : RefreshTokenRecord}
    → row_of jti db ≡ some row
    → row_of jti (Tokens.replace_token st d user ip jti db)
      ≡ some (Tokens.replace d.now d.refresh_jti row)
row_of-replace_token st d user ip jti db {row} h = grind (
  arith,
  find-append (λ (r : RefreshTokenRecord). r.jti == jti)
      (update_where (λ (r : RefreshTokenRecord). r.jti == jti) (Tokens.replace d.now d.refresh_jti)
        db.refresh_tokens)
      (Tokens.fresh_record st d user ip ∷ []),
  find-update_where (λ (r : RefreshTokenRecord). r.jti == jti) (λ r. r.jti == jti)
      (Tokens.replace d.now d.refresh_jti) db.refresh_tokens (λ r. refl),
  find_holds (λ (r : RefreshTokenRecord). r.jti == jti) db.refresh_tokens row h,
)

module _ (p : Platform) (st : Settings) (d : Draws) (ip : Option Text) (raw : p.Token) where
  -- A stored token that is revoked already: the request fails and ends the user's sessions.
  pub rotate_revoked :
      (db : Db) (c : Payload) (jti t : ℕ) (row : RefreshTokenRecord)
      → p.decode d.now raw ≡ some c
      → c.kind ≡ refresh
      → c.jti ≡ some jti
      → row_of jti db ≡ some row
      → row.revoked_at ≡ some t
      → rotated p st d ip raw db
        ≡ (err Tokens.invalid_credentials, Tokens.revoke_sessions d.now row.user_id db, [])
  unfolding Tokens.rotate_refresh_token request
  rotate_revoked db c jti t row e k j f r = ground arith

module _ (p : Platform) (st : Settings) (d : Draws) (ip : Option Text) (raw : p.Token) where
  -- The token of a successful rotation, presented again while it decodes, is refused; no session
  -- of its user is live after that, and the user's token version is one higher.
  pub replay_ends_sessions :
      (d' : Draws) (ip' : Option Text) (db db' : Db) (pair : Tokens.TokenPair p) (user : User)
      (es : List Effect)
      → rotated p st d ip raw db ≡ (ok (pair, user), db', es)
      → p.decode d'.now raw ≡ p.decode d.now raw
      → let (r, db'', _) = rotated p st d' ip' raw db' in
        (r ≡ err Tokens.invalid_credentials)
        × (count (Tokens.is_live_of user.id) db''.refresh_tokens ≡ 0)
        × (user_of user.id db'' ≡ some (Tokens.bump user))
  replay_ends_sessions d' ip' db db' pair user es h same =
      let ready = rotate_sound p st d ip raw db db' pair user es h in
      let moved : db' ≡ Tokens.replace_token st d user ip ready.row.jti db =
        ap (λ (x : Result (Tokens.TokenPair p × User) × Db × List Effect). x.1)
          (sym h ∙ rotate_accepts p st d ip raw db user ready) in
      let key : ready.row.jti ≡ ready.jti = row_of_key ready.jti db ready.row ready.stored in
      let owner : user.id ≡ ready.row.user_id = user_of_key ready.row.user_id db user ready.owner in
      let kept : row_of ready.jti db' ≡ some (Tokens.replace d.now d.refresh_jti ready.row) =
        subst (λ x. row_of ready.jti x ≡ some (Tokens.replace d.now d.refresh_jti ready.row))
          (sym (subst (λ j. db' ≡ Tokens.replace_token st d user ip j db) key moved))
          (row_of-replace_token st d user ip ready.jti db ready.stored) in
      let again =
        rotate_revoked p st d' ip' raw db' ready.payload ready.jti d.now
          (Tokens.replace d.now d.refresh_jti ready.row) (same ∙ ready.decoded) ready.is_refresh
          ready.has_jti kept refl in
      let bumped : user_of user.id db' ≡ some user =
        subst (λ x. user_of user.id x ≡ some user) (sym moved)
          (subst (λ k. user_of k db ≡ some user) (sym owner) ready.owner) in
      rw (again, ← owner)
        (
          refl,
          count-revoke_sessions d'.now user.id db',
          ground (arith, user_of-revoke_sessions d'.now user.id user.id db', bumped),
        )
