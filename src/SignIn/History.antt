-- ===== src/SignIn/History.antt =====
-- Any sequence of requests to the routes of src/api/routes/auth.py, by any clients.
use attendance_tracker.Prelude.{
  ℕ, refl, Text, Option, none, some, arith, ◌==◌, [], ◌∷◌, updated, update_where, find-append,
  find-update_where,
}
use attendance_tracker.Database.Rows.{Db, User, AuditLog, Organization, PasswordResetToken}
use attendance_tracker.Database.Keeps.{Keeps, keeps_rules}
use attendance_tracker.Platform.{Platform, Settings, Draws}
use attendance_tracker.Audit.{add_entry}
use attendance_tracker.Tokens.Later.{
  Later, Later-users, Later-issue_token_pair, Later-revoke_all_user_tokens,
  Later-rotate_refresh_token, Later-revoke_refresh_token,
}
use attendance_tracker.Identity.{get_current_user}
use attendance_tracker.Reset
use attendance_tracker.SignIn

module _ (db : Db) where
  Later-add_entry : (e : AuditLog) (db' : Db) → Later db db' → Later db (add_entry e db')
  Later-add_entry e db' h = record { versions = h.versions; revoked = h.revoked; used = h.used }

  Later-store_reset_token :
      (st : Settings) (now new_digest user_id : ℕ) (ip : Option Text) (db' : Db)
      → Later db db'
      → Later db (Reset.store_reset_token st now new_digest user_id ip db')
  Later-store_reset_token st now new_digest user_id ip db' h = record {
    versions = h.versions;
    revoked = h.revoked;
    used = λ digest t e v.
        let (t', found, gone) = h.used digest t e v in
        (
          updated (Reset.is_pending_of user_id) (Reset.expire now) t',
          ground (
            arith,
            find-append (λ (x : PasswordResetToken). x.token_hash == digest)
                (update_where (Reset.is_pending_of user_id) (Reset.expire now) db'.reset_tokens)
                (Reset.new_reset_token st now new_digest user_id ip ∷ []),
            find-update_where (λ (x : PasswordResetToken). x.token_hash == digest)
                (Reset.is_pending_of user_id) (Reset.expire now) db'.reset_tokens (λ x. refl),
            found,
          ),
          ground (arith, gone),
        );
  }

  Later-store_password :
      (user_id new_hash : ℕ) (db' : Db)
      → Later db db'
      → Later db (SignIn.store_password user_id new_hash db')
  Later-store_password user_id new_hash db' h =
      Later-users db (λ u. u.id == user_id) (Reset.set_password new_hash) db' (λ u. refl)
        (λ u. omega arith) h

  Later-apply_reset :
      (now new_digest user_id new_hash : ℕ) (db' : Db)
      → Later db db'
      → Later db (Reset.apply_reset now new_digest user_id new_hash db')
  Later-apply_reset now new_digest user_id new_hash db' h =
      let stored = Later-store_password user_id new_hash db' h in
      record {
        versions = stored.versions;
        revoked = stored.revoked;
        used = λ digest t e v.
            let (t', found, gone) = h.used digest t e v in
            let q = λ (x : PasswordResetToken). x.token_hash == new_digest in
            (
              updated q (Reset.use_token now) t',
              ground (
                arith,
                find-update_where (λ (x : PasswordResetToken). x.token_hash == digest) q
                    (Reset.use_token now) db'.reset_tokens (λ x. refl),
                found,
              ),
              ground (arith, gone),
            );
      }

ruleset updates =
    (Later-add_entry, Later-store_reset_token, Later-store_password, Later-apply_reset)

ruleset services = (
  Later-issue_token_pair, Later-revoke_all_user_tokens, Later-rotate_refresh_token,
  Later-revoke_refresh_token,
)

module _ (db : Db) (p : Platform) (st : Settings) (d : Draws) where
  Later-create_reset_token :
      (u : User) (ip : Option Text) → Keeps (Later db) (Reset.create_reset_token p st d u ip)
  unfolding Reset.create_reset_token
  Later-create_reset_token u ip = search (keeps_rules, updates) depth 8

  Later-consume_reset_token :
      (now raw new_hash : ℕ) → Keeps (Later db) (Reset.consume_reset_token p now raw new_hash)
  unfolding Reset.consume_reset_token
  Later-consume_reset_token now raw new_hash = search (keeps_rules, updates, services) depth 14

  Later-login_org :
      (body : SignIn.LoginRequest) (ip : Option Text) (org : Organization)
      → Keeps (Later db) (SignIn.login_org p st d body ip org)
  Later-login_org body ip org = search (keeps_rules, updates, services) depth 14

  pub Later-login :
      (body : SignIn.LoginRequest) (r : SignIn.HttpRequest)
      → Keeps (Later db) (SignIn.login p st d body r)
  unfolding SignIn.login
  Later-login body r = search (keeps_rules, updates, services) depth 14

  pub Later-refresh_token :
      (raw : p.Token) (r : SignIn.HttpRequest)
      → Keeps (Later db) (SignIn.refresh_token p st d raw r)
  unfolding SignIn.refresh_token
  Later-refresh_token raw r = search (keeps_rules, services) depth 8

  pub Later-logout :
      (u : User) (raw : p.Token) (r : SignIn.HttpRequest)
      → Keeps (Later db) (SignIn.logout p d u raw r)
  unfolding SignIn.logout
  Later-logout u raw r = search (keeps_rules, updates, services) depth 8

  Later-start_if_found :
      (o : Organization) (ip : Option Text) (user : Option User)
      → Keeps (Later db) (SignIn.start_if_found p st d o ip user)
  unfolding SignIn.start_if_found
  Later-start_if_found o ip none = search keeps_rules
  Later-start_if_found o ip (some u) =
      search (keeps_rules, updates, Later-create_reset_token) depth 10

  pub Later-forgot_password :
      (email slug : Text) (r : SignIn.HttpRequest)
      → Keeps (Later db) (SignIn.forgot_password p st d email slug r)
  unfolding SignIn.forgot_password
  Later-forgot_password email slug r = search (keeps_rules, updates, Later-start_if_found) depth 14

  pub Later-reset_password :
      (raw : ℕ) (new : Text) (r : SignIn.HttpRequest)
      → Keeps (Later db) (SignIn.reset_password p d raw new r)
  unfolding SignIn.reset_password
  Later-reset_password raw new r = search (keeps_rules, updates, Later-consume_reset_token) depth 12

  pub Later-change_password :
      (u : User) (current new : Text) (r : SignIn.HttpRequest)
      → Keeps (Later db) (SignIn.change_password p d u current new r)
  unfolding SignIn.change_password
  Later-change_password u current new r = search (keeps_rules, updates, services) depth 12

  pub Later-get_current_user :
      (now : ℕ) (t : Option p.Token) → Keeps (Later db) (get_current_user p now t)
  unfolding get_current_user
  Later-get_current_user now none = search keeps_rules
  Later-get_current_user now (some t) = search keeps_rules depth 12
