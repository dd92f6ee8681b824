-- ===== src/Users/Manage.antt =====
-- What the deactivation of an account and an administrator's password leave.
use attendance_tracker.Prelude.{
  ℕ, ◌≡◌, ◌≢◌, refl, Text, none, some, true, false, ◌&&◌, ◌||◌, List, [], ◌∷◌, ⊤, ◌==◌,
  if◌then◌else◌, update_where, arith, count, find_weaken, find_replaced, find_holds, subst, sym,
}
use attendance_tracker.Database.Rows.{Db, User, is_superadmin}
use attendance_tracker.Database.Session.{
  request, Result, Effect, index_remove, ok, err, begin, ◌>>=◌, ◌>>◌, modify, commit, gets, http,
  Handler,
}
use attendance_tracker.Database.Refuse.{past_check, past_raise_if, past_or_raise, check_rules}
use attendance_tracker.Platform.{Platform, Draws}
use attendance_tracker.Audit.{entry, add_entry, record_audit}
use attendance_tracker.Passwords.{get_password_hash, validate_password_strength, hash_too_long}
use attendance_tracker.SignIn.{require_strong}
use attendance_tracker.Reset.{set_password}
use attendance_tracker.Tokens.{revoke_all_user_tokens, revoke_sessions, is_live_of, bump}
use attendance_tracker.Tokens.Rotation.{user_of, count-revoke_sessions}
use attendance_tracker.Tokens.Reuse.{user_of-revoke_sessions}
use attendance_tracker.Users
use attendance_tracker.Users.{scoped_user}
use attendance_tracker.Users.Update.Assign.{IsManaged, IsCheck-managed_user, managed_user_passed}

abbrev pub DeleteOutcome : User → ℕ → Db → Result ⊤ × Db × List Effect → Type 0
DeleteOutcome user id db (err f, db', es) = (db' ≡ db) × (es ≡ [])
DeleteOutcome user id db (ok done, db', es) =
    (old : User) × IsManaged user id old db
    × (id ≢ user.id)
    × (db'.users
        ≡ update_where (λ x. x.id == old.id) (λ x. record old { is_active = false }) db.users)
    × (es ≡ (
        if old.is_active && Users.embedded old.id db
        then index_remove old.organization_id old.id ∷ []
        else []))

module _ (user : User) (id : ℕ) (db : Db) where
  deactivate : User → Handler ⊤
  deactivate old = do
    has_embedding ← gets (Users.embedded old.id)
    modify (Users.put_user (record old { is_active = false }))
    commit
    Users.emit_if (old.is_active && has_embedding) old.organization_id old.id
    record_audit
        (entry "user.deactivated" (some old.organization_id) (some user.id) (some old.id) [] none)

  removed : User → List Effect
  removed old =
      if old.is_active && Users.embedded old.id db
      then index_remove old.organization_id old.id ∷ []
      else []

  deactivate_result :
      (old : User)
      → request (deactivate old) db ≡ (
        ok tt,
        add_entry
            (entry "user.deactivated"
              (some old.organization_id)
              (some user.id)
              (some old.id)
              []
              none)
            (Users.put_user (record old { is_active = false }) db),
        removed old,
      )
  unfolding request deactivate removed
  deactivate_result old = ground arith

  deactivated :
      (old : User)
      → IsManaged user id old db
      → id ≢ user.id
      → DeleteOutcome user id db (request (deactivate old) db)
  unfolding removed
  deactivated old m ne =
      subst (DeleteOutcome user id db) (sym (deactivate_result old)) (old, m, ne, refl, refl)

  -- A deactivation that is refused changes nothing. One that succeeds is of an account that the
  -- requester may manage and that is not their own; it clears the flag of that row, and takes the
  -- user out of the match index exactly if the account was active and has a face template.
  pub delete_user_cases : DeleteOutcome user id db (request (Users.delete_user user id) db)
  unfolding Users.delete_user deactivate
  delete_user_cases =
      let Q = DeleteOutcome user id db in
      past_raise_if Q db (id == user.id) (http 400 "Cannot deactivate your own account") _
        (λ f. (refl, refl))
        λ other.
          past_check Q db (Users.managed_user id user) _ (IsCheck-managed_user user id)
            (λ f. (refl, refl))
            λ old h.
              deactivated old (managed_user_passed user id db old h) (λ e. ground (arith, e, other))

abbrev pub PasswordOutcome :
    Platform → Draws → User → ℕ → Text → Db → Result ⊤ × Db × List Effect → Type 0
PasswordOutcome p d user id new db (err f, db', es) = (db' ≡ db) × (es ≡ [])
PasswordOutcome p d user id new db (ok done, db', es) =
    (old : User) × IsManaged user id old db
    × ((validate_password_strength p new).0 ≡ true)
    × (user_of old.id db' ≡ some (bump (set_password (p.hashpw new d.salt) old)))
    × (count (is_live_of old.id) db'.refresh_tokens ≡ 0)

module _ (p : Platform) (d : Draws) (user : User) (id : ℕ) (new : Text) (db : Db) where
  replace_password : User → ℕ → Handler ⊤
  unfolding revoke_all_user_tokens
  replace_password old new_hash = do
    modify (Users.put_user (set_password new_hash old))
    commit
    revoke_all_user_tokens d.now old.id
    record_audit (
        entry "user.password_set_by_admin" (some old.organization_id) (some user.id) (some old.id)
          [] none)

  replaced :
      (old : User)
      → scoped_user id user db ≡ some old
      → user_of old.id (
          revoke_sessions d.now old.id (Users.put_user (set_password (p.hashpw new d.salt) old) db))
        ≡ some (bump (set_password (p.hashpw new d.salt) old))
  replaced old found =
      let scope = λ (x : User). is_superadmin user || x.organization_id == user.organization_id in
      let mine : (old.id == id) ≡ true =
        ground (arith, find_holds (λ (x : User). x.id == id && scope x) db.users old found) in
      let u = set_password (p.hashpw new d.salt) old in
      ground (
        arith,
        find_replaced (λ (x : User). x.id == old.id) u db.users (ground arith)
            (subst (λ k. count (λ (x : User). x.id == k) db.users ≢ 0) (ground (arith, mine))
              (find_weaken (λ (x : User). x.id == id) scope db.users old found)),
        user_of-revoke_sessions d.now old.id old.id (Users.put_user u db),
      )

  is_strong :
      (require_strong p new (begin db)).0 ≡ ok tt → (validate_password_strength p new).0 ≡ true
  is_strong h = ground (arith, h)

  finished :
      (old : User) (hash : ℕ)
      → IsManaged user id old db
      → (validate_password_strength p new).0 ≡ true
      → get_password_hash p d.salt new ≡ some hash
      → PasswordOutcome p d user id new db (request (replace_password old hash) db)
  unfolding request replace_password get_password_hash revoke_all_user_tokens
  finished old hash m strong e =
      let same : hash ≡ p.hashpw new d.salt = ground (arith, e) in
      (
        old,
        m,
        strong,
        subst
            (λ k.
              user_of old.id (revoke_sessions d.now old.id (Users.put_user (set_password k old) db))
              ≡ some (bump (set_password (p.hashpw new d.salt) old)))
            (sym same) (replaced old m.0),
        count-revoke_sessions d.now old.id (Users.put_user (set_password hash old) db),
      )

  -- An administrator's password that is refused changes nothing. One that is accepted is strong and
  -- goes to an account that the requester may manage; the account then has its hash and a higher
  -- token version, and no live session.
  pub set_user_password_cases :
      PasswordOutcome p d user id new db (request (Users.set_user_password p d user id new) db)
  unfolding Users.set_user_password replace_password
  set_user_password_cases =
      let Q = PasswordOutcome p d user id new db in
      past_check Q db (Users.managed_user id user) _ (IsCheck-managed_user user id)
        (λ f. (refl, refl))
        λ old h.
          past_check Q db (require_strong p new) _ (search check_rules depth 3) (λ f. (refl, refl))
            λ _ strong.
              past_or_raise Q db (get_password_hash p d.salt new) (http 400 hash_too_long) _
                (λ f. (refl, refl))
                λ hash e.
                  finished old hash (managed_user_passed user id db old h) (is_strong strong) e
