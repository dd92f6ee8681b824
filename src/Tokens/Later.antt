-- ===== src/Tokens/Later.antt =====
-- Token versions only rise and revocations last, whatever the token services do to the tables.
use attendance_tracker.Prelude.{
  ℕ, ◌≤◌, ◌≡◌, refl, Text, Option, some, Bool, true, not, ◌&&◌, [], ◌∷◌, arith, ◌==◌, is_some,
  update_where, updated, find-append, find-update_where,
}
use attendance_tracker.Database.Rows.{Db, User, RefreshTokenRecord, PasswordResetToken}
use attendance_tracker.Database.Keeps.{Keeps, Keeps-elim, keeps_rules}
use attendance_tracker.Platform.{Platform, Payload, Settings, Draws}
use attendance_tracker.Reset.{reset_row}
use attendance_tracker.Tokens
use attendance_tracker.Tokens.Rotation.{row_of, user_of}

-- Every user of `db` is there in `db'`, at no lower version; every revoked token of `db` is there
-- and revoked; every used reset token of `db` is there and used.
pub record Later (db db' : Db) : Type 0 where
  pub versions :
      (id : ℕ) (u : User)
      → user_of id db ≡ some u
      → (u' : User) × (user_of id db' ≡ some u') × (u.token_version ≤ u'.token_version)
  pub revoked :
      (jti : ℕ) (r : RefreshTokenRecord)
      → row_of jti db ≡ some r
      → is_some r.revoked_at ≡ true
      → (r' : RefreshTokenRecord) × (row_of jti db' ≡ some r') × (is_some r'.revoked_at ≡ true)
  pub used :
      (digest : ℕ) (t : PasswordResetToken)
      → reset_row digest db ≡ some t
      → is_some t.used_at ≡ true
      → (t' : PasswordResetToken) × (reset_row digest db' ≡ some t') × (is_some t'.used_at ≡ true)

pub Later-refl : (db : Db) → Later db db
Later-refl db = record {
  versions = λ id u h. (u, h, omega arith);
  revoked = λ jti r h v. (r, h, v);
  used = λ digest t h v. (t, h, v);
}

-- Updates that keep the keys, and lower no version and undo no revocation.
module _ (db : Db) where
  pub Later-users :
      (q : User → Bool) (f : User → User) (db' : Db)
      → ((u : User) → (f u).id ≡ u.id)
      → ((u : User) → u.token_version ≤ (f u).token_version)
      → Later db db'
      → Later db (record db' { users = update_where q f db'.users })
  Later-users q f db' key rise h = record {
    versions = λ id u e.
        let (u', found, le) = h.versions id u e in
        (
          updated q f u',
          ground (
            arith,
            find-update_where (λ (x : User). x.id == id) q f db'.users (λ x. ground (arith, key x)),
            found,
          ),
          ground (arith, rise u', le),
        );
    revoked = h.revoked;
    used = h.used;
  }

  pub Later-tokens :
      (q : RefreshTokenRecord → Bool) (f : RefreshTokenRecord → RefreshTokenRecord) (db' : Db)
      → ((r : RefreshTokenRecord) → (f r).jti ≡ r.jti)
      → ((r : RefreshTokenRecord) → is_some r.revoked_at ≡ true → is_some (f r).revoked_at ≡ true)
      → Later db db'
      → Later db (record db' { refresh_tokens = update_where q f db'.refresh_tokens })
  Later-tokens q f db' key keep h = record {
    versions = h.versions;
    revoked = λ jti r e v.
        let (r', found, gone) = h.revoked jti r e v in
        (
          updated q f r',
          ground (
            arith,
            find-update_where (λ (x : RefreshTokenRecord). x.jti == jti) q f db'.refresh_tokens
                (λ x. ground (arith, key x)),
            found,
          ),
          ground (arith, keep r' gone, gone),
        );
    used = h.used;
  }

  pub Later-add_refresh_token :
      (r : RefreshTokenRecord) (db' : Db) → Later db db' → Later db (Tokens.add_refresh_token r db')
  Later-add_refresh_token r db' h = record {
    versions = h.versions;
    revoked = λ jti x e v.
        let (x', found, gone) = h.revoked jti x e v in
        (
          x',
          ground (
            arith,
            find-append (λ (y : RefreshTokenRecord). y.jti == jti) db'.refresh_tokens (r ∷ []),
            found,
          ),
          gone,
        );
    used = h.used;
  }

  pub Later-revoke_sessions :
      (now user_id : ℕ) (db' : Db)
      → Later db db'
      → Later db (Tokens.revoke_sessions now user_id db')
  Later-revoke_sessions now user_id db' h =
      let revoked =
        Later-tokens (Tokens.is_live_of user_id) (Tokens.revoke now) db' (λ r. refl) (λ r v. refl)
          h in
      Later-users (λ u. u.id == user_id) Tokens.bump
        (record db' {
          refresh_tokens =
              update_where (Tokens.is_live_of user_id) (Tokens.revoke now) db'.refresh_tokens;
        })
        (λ u. refl) (λ u. omega arith) revoked

  pub Later-revoke_jti :
      (now jti : ℕ) (db' : Db) → Later db db' → Later db (Tokens.revoke_jti now jti db')
  Later-revoke_jti now jti db' h =
      Later-tokens (λ r. r.jti == jti && not (is_some r.revoked_at)) (Tokens.revoke now) db'
        (λ r. refl) (λ r v. refl) h

  pub Later-replace_token :
      (st : Settings) (d : Draws) (user : User) (ip : Option Text) (jti : ℕ) (db' : Db)
      → Later db db'
      → Later db (Tokens.replace_token st d user ip jti db')
  Later-replace_token st d user ip jti db' h =
      let replaced =
        Later-tokens (λ r. r.jti == jti) (Tokens.replace d.now d.refresh_jti) db' (λ r. refl)
          (λ r v. refl) h in
      Later-add_refresh_token (Tokens.fresh_record st d user ip)
        (record db' {
          refresh_tokens =
              update_where (λ r. r.jti == jti) (Tokens.replace d.now d.refresh_jti)
                db'.refresh_tokens;
        })
        replaced

ruleset later_updates =
    (Later-add_refresh_token, Later-revoke_sessions, Later-revoke_jti, Later-replace_token)

-- The four token services.
module _ (db : Db) where
  pub Later-issue_token_pair :
      (p : Platform) (st : Settings) (d : Draws) (user : User) (ip : Option Text)
      → Keeps (Later db) (Tokens.issue_token_pair p st d user ip)
  unfolding Tokens.issue_token_pair
  Later-issue_token_pair p st d user ip = search (keeps_rules, later_updates)

  pub Later-revoke_all_user_tokens :
      (now user_id : ℕ) → Keeps (Later db) (Tokens.revoke_all_user_tokens now user_id)
  unfolding Tokens.revoke_all_user_tokens
  Later-revoke_all_user_tokens now user_id = search (keeps_rules, later_updates)

  Later-reject_reuse :
      (now : ℕ) (r : RefreshTokenRecord) → Keeps (Later db) (Tokens.reject_reuse now r)
  unfolding Tokens.reject_reuse
  Later-reject_reuse now r = search (keeps_rules, Later-revoke_all_user_tokens)

  Later-rotate_found :
      (p : Platform) (st : Settings) (d : Draws) (ip : Option Text) (c : Payload)
      (r : RefreshTokenRecord)
      → Keeps (Later db) (Tokens.rotate_found p st d ip c r)
  unfolding Tokens.rotate_found
  Later-rotate_found p st d ip c r = search (keeps_rules, later_updates, Later-reject_reuse) depth 9

  pub Later-rotate_refresh_token :
      (p : Platform) (st : Settings) (d : Draws) (ip : Option Text) (raw : p.Token)
      → Keeps (Later db) (Tokens.rotate_refresh_token p st d ip raw)
  unfolding Tokens.rotate_refresh_token
  Later-rotate_refresh_token p st d ip raw = search (keeps_rules, Later-rotate_found) depth 9

  pub Later-revoke_refresh_token :
      (p : Platform) (now : ℕ) (raw : p.Token)
      → Keeps (Later db) (Tokens.revoke_refresh_token p now raw)
  unfolding Tokens.revoke_refresh_token
  Later-revoke_refresh_token p now raw =
      Keeps-elim (p.decode now raw) _ _ (search keeps_rules)
        λ c. Keeps-elim c.jti _ _ (search keeps_rules) λ jti. search (keeps_rules, later_updates)
