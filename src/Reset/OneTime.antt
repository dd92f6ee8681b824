-- ===== src/Reset/OneTime.antt =====
-- A reset token works once, and only the newest one of a user works.
use attendance_tracker.Prelude.{
  is_some, ℕ, ◌+◌, ◌≤◌, ◌≡◌, refl, Text, Option, none, some, find, find-append, Bool, true, false,
  ◌&&◌, List, [], ◌∷◌, ap, ◌∙◌, sym, subst, arith, ltb, ◌==◌, count, update_where, Option-cases,
  find-update_where, inl, inr, if◌then◌else◌, updated, map_option, find_holds, count-append,
  count-update_where_zero,
}
use attendance_tracker.Database.Rows.{Db, User, PasswordResetToken, is_usable}
use attendance_tracker.Database.Session.{Result, Effect, ok, err, request}
use attendance_tracker.Platform.{Platform, Settings, Draws, minutes}
use attendance_tracker.Tokens.{revoke_sessions, is_live_of, bump}
use attendance_tracker.Tokens.Reuse.{user_of-revoke_sessions}
use attendance_tracker.Tokens.Rotation.{user_of, user_of_key, count-revoke_sessions}
use attendance_tracker.Reset

module _ (p : Platform) (raw new_hash : ℕ) where
  abbrev pub consumed : ℕ → Db → Bool
  consumed now db = elim (request (Reset.consume_reset_token p now raw new_hash) db).0 [
    | ok b ↦ b
    | err e ↦ false
  ]

  consume_cases :
      (now : ℕ) (db : Db)
      → consumed now db ≡ true
      → (row : PasswordResetToken) × (user : User) × (Reset.reset_row (p.hash_reset_token raw) db
          ≡ some row)
        × (is_usable now row ≡ true)
        × (user_of row.user_id db ≡ some user)
        × (user.is_active ≡ true)
        × ((request (Reset.consume_reset_token p now raw new_hash) db).1
            ≡ revoke_sessions now user.id
                (Reset.apply_reset now (p.hash_reset_token raw) user.id new_hash db))
  unfolding Reset.consume_reset_token request
  consume_cases now db h = elim (Option-cases (Reset.reset_row (p.hash_reset_token raw) db)) [
    | inl e ↦ absurd (ground arith)
    | inr (row, e) ↦ elim (Option-cases (user_of row.user_id db)) [
      | inl f ↦ absurd (ground arith)
      | inr (user, f) ↦ (row, user, e, ground arith, f, ground arith, ground arith)
    ]
  ]

  reset_row-apply_reset :
      (now digest user_id : ℕ) (db : Db)
      → Reset.reset_row digest (Reset.apply_reset now digest user_id new_hash db)
        ≡ map_option
            (updated (λ t. t.token_hash == digest) (Reset.use_token now))
            (Reset.reset_row digest db)
  reset_row-apply_reset now digest user_id db =
      find-update_where (λ (t : PasswordResetToken). t.token_hash == digest)
        (λ t. t.token_hash == digest) (Reset.use_token now) db.reset_tokens (λ t. refl)

  pub consume_used :
      (now : ℕ) (db : Db) (row : PasswordResetToken)
      → Reset.reset_row (p.hash_reset_token raw) db ≡ some row
      → is_some row.used_at ≡ true
      → request (Reset.consume_reset_token p now raw new_hash) db ≡ (ok false, db, [])
  unfolding Reset.consume_reset_token request
  consume_used now db row e u = ground arith

  user_of-apply_reset :
      (now digest user_id id : ℕ) (db : Db)
      → user_of id (Reset.apply_reset now digest user_id new_hash db)
        ≡ map_option (updated (λ u. u.id == user_id) (Reset.set_password new_hash)) (user_of id db)
  user_of-apply_reset now digest user_id id db =
      find-update_where (λ (u : User). u.id == id) (λ u. u.id == user_id)
        (Reset.set_password new_hash) db.users (λ u. refl)

  -- what a consumed token leaves
  after_use :
      (now : ℕ) (db : Db) (row : PasswordResetToken) (user : User)
      → Reset.reset_row (p.hash_reset_token raw) db ≡ some row
      → user_of user.id db ≡ some user
      → let db' =
          revoke_sessions now user.id
            (Reset.apply_reset now (p.hash_reset_token raw) user.id new_hash db) in
        (Reset.reset_row (p.hash_reset_token raw) db' ≡ some (Reset.use_token now row))
        × (user_of user.id db' ≡ some (bump (Reset.set_password new_hash user)))
        × (count (is_live_of user.id) db'.refresh_tokens ≡ 0)
  after_use now db row user stored owner =
      let digest = p.hash_reset_token raw in
      let mid = Reset.apply_reset now digest user.id new_hash db in
      (
        ground (
          arith,
          reset_row-apply_reset now digest user.id db,
          stored,
          find_holds (λ (t : PasswordResetToken). t.token_hash == digest) db.reset_tokens row
              stored,
        ),
        ground (
          arith,
          user_of-revoke_sessions now user.id user.id mid,
          user_of-apply_reset now digest user.id user.id db,
          owner,
        ),
        count-revoke_sessions now user.id mid,
      )

  -- the row of a token that was consumed, and its user
  pub consume_once :
      (now : ℕ) (db db' : Db)
      → request (Reset.consume_reset_token p now raw new_hash) db ≡ (ok true, db', [])
      → ((row : PasswordResetToken) × (Reset.reset_row (p.hash_reset_token raw) db' ≡ some row)
          × (is_some row.used_at ≡ true))
        × (old : PasswordResetToken) × (Reset.reset_row (p.hash_reset_token raw) db ≡ some old)
        × (user : User) × (old.user_id ≡ user.id)
        × (user_of user.id db ≡ some user)
        × (user_of user.id db' ≡ some (bump (Reset.set_password new_hash user)))
        × (count (is_live_of user.id) db'.refresh_tokens ≡ 0)
  consume_once now db db' h =
      let (row, user, stored, usable, owner, active, after) =
        consume_cases now db (ground (arith, h)) in
      let owned : user_of user.id db ≡ some user =
        subst (λ k. user_of k db ≡ some user) (sym (user_of_key row.user_id db user owner)) owner in
      let moved : revoke_sessions now user.id
            (Reset.apply_reset now (p.hash_reset_token raw) user.id new_hash db)
          ≡ db' =
        sym after ∙ ap (λ (x : Result Bool × Db × List Effect). x.1) h in
      let (used, passed, ended) = after_use now db row user stored owned in
      (
        (
          Reset.use_token now row,
          subst (λ x. Reset.reset_row (p.hash_reset_token raw) x ≡ some (Reset.use_token now row))
              moved used,
          refl,
        ),
        row,
        stored,
        user,
        sym (user_of_key row.user_id db user owner),
        owned,
        subst (λ x. user_of user.id x ≡ some (bump (Reset.set_password new_hash user))) moved
            passed,
        subst (λ (x : Db). count (is_live_of user.id) x.refresh_tokens ≡ 0) moved ended,
      )

abbrev pub usable_of : ℕ → ℕ → PasswordResetToken → Bool
usable_of now user_id t = t.user_id == user_id && is_usable now t

module _ (p : Platform) (st : Settings) (d : Draws) (user : User) (ip : Option Text) where
  create_stores :
      (db db' : Db) (raw : ℕ)
      → request (Reset.create_reset_token p st d user ip) db ≡ (ok raw, db', [])
      → (Reset.store_reset_token st d.now (p.hash_reset_token raw) user.id ip db).reset_tokens
        ≡ db'.reset_tokens
  unfolding Reset.create_reset_token request
  create_stores db db' raw h = ground arith

  draw_token_unused :
      (db : Db) (raws : List ℕ) (raw : ℕ)
      → Reset.draw_token p db raws ≡ some raw
      → Reset.reset_row (p.hash_reset_token raw) db ≡ none
  unfolding Reset.draw_token
  draw_token_unused db [] raw h = absurd (ground (arith, h))
  draw_token_unused db (x ∷ raws) raw h =
      elim (Option-cases (Reset.reset_row (p.hash_reset_token x) db)) [
        | inl e ↦
            let same : some x ≡ some raw = ground (arith, e, h) in
            let digest : some (p.hash_reset_token x) ≡ some (p.hash_reset_token raw) =
              ap (map_option p.hash_reset_token) same in
            ground (arith, e, digest)
        | inr (row, e) ↦ draw_token_unused db raws raw (ground (arith, e, h))
      ]

  create_draws :
      (db db' : Db) (raw : ℕ)
      → request (Reset.create_reset_token p st d user ip) db ≡ (ok raw, db', [])
      → Reset.draw_token p db d.raw_tokens ≡ some raw
  unfolding Reset.create_reset_token request
  create_draws db db' raw h = elim (Option-cases (Reset.draw_token p db d.raw_tokens)) [
    | inl e ↦ absurd (ground (arith, e, h))
    | inr (x, e) ↦ ground (arith, e, h)
  ]

  find_created :
      (db db' : Db) (raw : ℕ)
      → request (Reset.create_reset_token p st d user ip) db ≡ (ok raw, db', [])
      → Reset.reset_row (p.hash_reset_token raw) db'
        ≡ some (Reset.new_reset_token st d.now (p.hash_reset_token raw) user.id ip)
  find_created db db' raw h =
      let digest = p.hash_reset_token raw in
      let unused = draw_token_unused db d.raw_tokens raw (create_draws db db' raw h) in
      let moved =
        find-update_where (λ (t : PasswordResetToken). t.token_hash == digest)
          (Reset.is_pending_of user.id) (Reset.expire d.now) db.reset_tokens (λ t. refl) in
      ap (find (λ (t : PasswordResetToken). t.token_hash == digest))
        (sym (create_stores db db' raw h))
      ∙ ground (
        arith,
        moved,
        unused,
        find-append (λ (t : PasswordResetToken). t.token_hash == digest)
            (update_where (Reset.is_pending_of user.id) (Reset.expire d.now) db.reset_tokens)
            (Reset.new_reset_token st d.now digest user.id ip ∷ []),
      )

  -- After a reset token was made for a user, the digest of the token that was returned leads to a
  -- row. At any later instant until its time is up that row is one of the user's that can be used,
  -- and the only one; from then on none of the user's can be.
  pub create_leaves_one :
      (db db' : Db) (raw now' : ℕ)
      → request (Reset.create_reset_token p st d user ip) db ≡ (ok raw, db', [])
      → d.now ≤ now'
      → (row : PasswordResetToken) × (Reset.reset_row (p.hash_reset_token raw) db' ≡ some row)
        × (usable_of now' user.id row ≡ ltb now' (d.now + minutes st.reset_token_expire_minutes))
        × (count (usable_of now' user.id) db'.reset_tokens
            ≡ (if ltb now' (d.now + minutes st.reset_token_expire_minutes) then 1 else 0))
  create_leaves_one db db' raw now' h le =
      let old = update_where (Reset.is_pending_of user.id) (Reset.expire d.now) db.reset_tokens in
      let fresh = Reset.new_reset_token st d.now (p.hash_reset_token raw) user.id ip in
      let none_left : count (usable_of now' user.id) old ≡ 0 =
        count-update_where_zero (usable_of now' user.id) (Reset.is_pending_of user.id)
          (Reset.expire d.now) db.reset_tokens (λ t. ground arith) in
      (
        fresh,
        find_created db db' raw h,
        ground arith,
        subst
            (λ (ts : List PasswordResetToken).
              count (usable_of now' user.id) ts
              ≡ (if ltb now' (d.now + minutes st.reset_token_expire_minutes) then 1 else 0))
            (create_stores db db' raw h)
            (ground (arith, count-append (usable_of now' user.id) old (fresh ∷ []), none_left)),
      )
