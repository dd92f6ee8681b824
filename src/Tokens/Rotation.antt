-- ===== src/Tokens/Rotation.antt =====
-- What `rotate_refresh_token` does to the stored tokens: one step of rotation, and reuse.
use attendance_tracker.Prelude.{
  ℕ, ◌<◌, ◌≡◌, Text, Option, none, some, true, List, [], arith, ◌==◌, find, count, Option-cases,
  ==_iff, count-update_where_zero, inl, inr, find_holds, ◌↔◌, sym, ◌∙◌,
}
use attendance_tracker.Database.Rows.{Db, User, RefreshTokenRecord}
use attendance_tracker.Database.Session.{Result, ok, Effect, request}
use attendance_tracker.Platform.{Platform, Payload, refresh, Settings, Draws}
use attendance_tracker.Tokens

-- The stored row that a lookup by `jti` finds.
abbrev pub row_of : ℕ → Db → Option RefreshTokenRecord
row_of jti db = find (λ r. r.jti == jti) db.refresh_tokens

abbrev pub user_of : ℕ → Db → Option User
user_of id db = find (λ u. u.id == id) db.users

pub row_of_key : (jti : ℕ) (db : Db) (r : RefreshTokenRecord) → row_of jti db ≡ some r → r.jti ≡ jti
row_of_key jti db r h = (==_iff _ _).0 (find_holds (λ x. x.jti == jti) db.refresh_tokens r h)

pub user_of_key : (id : ℕ) (db : Db) (u : User) → user_of id db ≡ some u → u.id ≡ id
user_of_key id db u h = (==_iff _ _).0 (find_holds (λ x. x.id == id) db.users u h)

-- After `revoke_sessions` no stored token of the user is live.
pub count-revoke_sessions :
    (now user_id : ℕ) (db : Db)
    → count (Tokens.is_live_of user_id) (Tokens.revoke_sessions now user_id db).refresh_tokens ≡ 0
count-revoke_sessions now user_id db =
    count-update_where_zero (Tokens.is_live_of user_id) (Tokens.is_live_of user_id)
      (Tokens.revoke now) db.refresh_tokens λ r. ground arith

module _ (p : Platform) (st : Settings) (d : Draws) (ip : Option Text) (raw : p.Token) where
  -- All that must hold for the token `raw` to be rotated, with what is read on the way.
  pub record Rotatable (db : Db) (user : User) : Type 0 where
    pub payload : Payload
    pub jti : ℕ
    pub row : RefreshTokenRecord
    pub decoded : p.decode d.now raw ≡ some payload
    pub is_refresh : payload.kind ≡ refresh
    pub has_jti : payload.jti ≡ some jti
    pub stored : row_of jti db ≡ some row
    pub live : row.revoked_at ≡ none
    pub unexpired : d.now < row.expires_at
    pub owner : user_of row.user_id db ≡ some user
    pub active : user.is_active ≡ true
    pub current : Tokens.tv_of payload ≡ user.token_version

  abbrev pub rotated : Db → Result (Tokens.TokenPair p × User) × Db × List Effect
  rotated db = request (Tokens.rotate_refresh_token p st d ip raw) db

  -- A token that can be rotated is: the pair is new, and only the token table changes.
  pub rotate_accepts :
      (db : Db) (user : User) (h : Rotatable db user)
      → rotated db ≡ (
        ok (Tokens.token_pair p st d user, user),
        Tokens.replace_token st d user ip h.row.jti db,
        [],
      )
  unfolding Tokens.rotate_refresh_token request
  rotate_accepts db user h = ground (
    arith, h.decoded, h.is_refresh, h.has_jti, h.stored, h.live, h.unexpired, h.owner, h.active,
    h.current,
  )

  -- A refresh token is rotated only where all that `Rotatable` lists holds: it decodes as a refresh
  -- token, is stored, live and not expired, and its user is active and at its version.
  pub rotate_sound :
      (db db' : Db) (pair : Tokens.TokenPair p) (user : User) (es : List Effect)
      → rotated db ≡ (ok (pair, user), db', es)
      → Rotatable db user
  unfolding Tokens.rotate_refresh_token request
  rotate_sound db db' pair user es h = elim (Option-cases (p.decode d.now raw)) [
    | inl e ↦ absurd (ground arith)
    | inr (c, e) ↦ elim (Option-cases c.jti) [
      | inl j ↦ absurd (ground arith)
      | inr (jti, j) ↦ elim (Option-cases (row_of jti db)) [
        | inl f ↦ absurd (ground arith)
        | inr (row, f) ↦ record {
          payload = c;
          jti = jti;
          row = row;
          decoded = e;
          is_refresh = ground arith;
          has_jti = j;
          stored = f;
          live = ground arith;
          unexpired = ground arith;
          owner = ground arith;
          active = ground arith;
          current = ground arith;
        }
      ]
    ]
  ]

  -- A refresh token is rotated exactly where all that `Rotatable` lists holds: it decodes as a
  -- refresh token, is stored, live and not expired, and its user is active and at its version. The
  -- pair is then new, and only the token table changes: the row is replaced.
  pub rotate_exactly :
      (db db' : Db) (pair : Tokens.TokenPair p) (user : User) (es : List Effect)
      → (rotated db ≡ (ok (pair, user), db', es)) ↔ (
          (h : Rotatable db user) × (pair ≡ Tokens.token_pair p st d user)
          × (db' ≡ Tokens.replace_token st d user ip h.row.jti db)
          × (es ≡ []))
  rotate_exactly db db' pair user es = (
    λ e.
        let h = rotate_sound db db' pair user es e in
        let same = sym e ∙ rotate_accepts db user h in
        (h, ground (arith, same), ground (arith, same), ground (arith, same)),
    λ (h, a, b, c). ground (arith, rotate_accepts db user h, a, b, c),
  )
