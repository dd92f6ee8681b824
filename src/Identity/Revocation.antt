-- ===== src/Identity/Revocation.antt =====
-- Which identities a revocation ends.
use attendance_tracker.Prelude.{
  ℕ, ◌+◌, ◌≤◌, ◌<◌, ◌≡◌, some, true, [], ap, ◌∙◌, sym, subst, arith, Option-cases, inl, inr,
}
use attendance_tracker.Database.Rows.{Db, User}
use attendance_tracker.Database.Session.{ok, err, http, request}
use attendance_tracker.Platform.{Platform, Payload, access, Settings, Draws, Decodes, minutes}
use attendance_tracker.Tokens.{tv_of, create_access_token, access_payload, revoke_sessions, bump}
use attendance_tracker.Tokens.Rotation.{user_of, user_of_key}
use attendance_tracker.Tokens.Reuse.{user_of-revoke_sessions}
use attendance_tracker.Identity.{get_current_user, bearer_or_none}

module _ (p : Platform) (now : ℕ) (token : p.Token) where
  -- `get_current_user` accepts a bearer token only if it is an access token, and only for an active
  -- user that is stored under its `sub`, at the version it was minted with; the request then leaves
  -- the tables as they are. (`bearer_or_none` does not read the version.)
  pub get_current_user_sound :
      (db : Db) (u : User)
      → (request (get_current_user p now (some token)) db).0 ≡ ok u
      → (c : Payload) × (p.decode now token ≡ some c)
        × (c.kind ≡ access)
        × (c.sub ≡ some u.id)
        × (user_of u.id db ≡ some u)
        × (u.is_active ≡ true)
        × (tv_of c ≡ u.token_version)
        × ((request (get_current_user p now (some token)) db).1 ≡ db)
  unfolding get_current_user request
  get_current_user_sound db u h = elim (Option-cases (p.decode now token)) [
    | inl e ↦ absurd (ground arith)
    | inr (c, e) ↦ elim (Option-cases c.sub) [
      | inl n ↦ absurd (ground arith)
      | inr (id, n) ↦
          let found : user_of id db ≡ some u = ground arith in
          let key : id ≡ u.id = sym (user_of_key id db u found) in
          (
            c,
            e,
            ground arith,
            n ∙ ap some key,
            subst (λ k. user_of k db ≡ some u) key found,
            ground arith,
            ground arith,
            ground arith,
          )
    ]
  ]

  -- Whatever the tables hold, a token of an older version than its user's is refused.
  pub get_current_user_stale :
      (db : Db) (c : Payload) (u : User)
      → p.decode now token ≡ some c
      → c.kind ≡ access
      → c.sub ≡ some u.id
      → user_of u.id db ≡ some u
      → u.is_active ≡ true
      → tv_of c < u.token_version
      → request (get_current_user p now (some token)) db
        ≡ (err (http 401 "Token has been revoked"), db, [])
  unfolding get_current_user request
  get_current_user_stale db c u e k n f a lt = ground arith

-- The quiet way to resolve a bearer token does not read the token version: after all sessions of
-- an active user were revoked, an access token from before still names the user there, while the
-- raising way refuses it.
pub bearer_or_none_ignores_revocation :
    (p : Platform) (st : Settings) (d : Draws) (now : ℕ) (db : Db) (u : User)
    → Decodes p
    → user_of u.id db ≡ some u
    → u.is_active ≡ true
    → now ≤ d.now + minutes st.access_token_expire_minutes
    → let token = create_access_token p st d u in
      let db' = revoke_sessions now u.id db in
      (request (get_current_user p now (some token)) db'
        ≡ (err (http 401 "Token has been revoked"), db', []))
      × (request (bearer_or_none p now (some token)) db' ≡ (ok (some (bump u)), db', []))
unfolding get_current_user bearer_or_none request
bearer_or_none_ignores_revocation p st d now db u decodes f a fits =
    let known = decodes now (access_payload st d u) fits in
    let found : user_of u.id (revoke_sessions now u.id db) ≡ some (bump u) =
      ground (arith, user_of-revoke_sessions now u.id u.id db, f) in
    (ground (arith, known, found, a), ground (arith, known, found, a))
