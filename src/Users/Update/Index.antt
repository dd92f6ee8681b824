-- ===== src/Users/Update/Index.antt =====
-- What an update leaves: the row, and the match index.
use attendance_tracker.Prelude.{
  ℕ, Text, Option, Bool, ◌≡◌, ◌≢◌, refl, count, find_weaken, find_replaced, none, some, true, not,
  ◌&&◌, ◌||◌, List, [], ◌∷◌, ◌==◌, inl, inr, find, update_where, arith, Bool-cases, find_holds, ap,
  sym, subst, ◌∙◌,
}
use attendance_tracker.Database.Rows.{Db, User, superadmin, is_superadmin, names}
use attendance_tracker.Database.Session.{
  request, Handler, Result, Effect, ok, err, begin, ◌>>=◌, ◌>>◌, modify, commit, pure, gets,
  or_raise,
}
use attendance_tracker.Database.Refuse.{request_past, past_check}
use attendance_tracker.Platform.{Platform}
use attendance_tracker.Audit.{entry, add_entry, record_audit}
use attendance_tracker.Users.{
  managed_user, put_user, embedded, emit_if, user_not_found, scoped_user,
}
use attendance_tracker.Users.Update
use attendance_tracker.Users.Update.Assign.{
  IsManaged, IsCheck-managed_user, IsCheck-changed_user, managed_user_passed, changed_Same,
}

abbrev pub UpdateOutcome : User → ℕ → Db → Result User × Db × List Effect → Type 0
UpdateOutcome user id db (err f, db', es) = (db' ≡ db) × (es ≡ [])
UpdateOutcome user id db (ok u, db', es) =
    (old : User) × IsManaged user id old db
    × (u.role ≡ superadmin → user.role ≡ superadmin)
    × (u.organization_id ≡ old.organization_id)
    × (u.password_hash ≡ old.password_hash)
    × (db'.users ≡ update_where (λ x. x.id == old.id) (λ x. u) db.users)
    × (es ≡ [])

module _ (p : Platform) (user : User) (id : ℕ) (body : Update.UserUpdate) (db : Db) where
  stored :
      (old u : User)
      → scoped_user id user db ≡ some old
      → u.id ≡ old.id
      → find (λ x. x.id == u.id) (put_user u db).users ≡ some u
  stored old u found same =
      let scope = λ (x : User). is_superadmin user || x.organization_id == user.organization_id in
      let mine : (old.id == id) ≡ true =
        ground (arith, find_holds (λ (x : User). x.id == id && scope x) db.users old found) in
      find_replaced (λ (x : User). x.id == u.id) u db.users (ground arith)
        (subst (λ k. count (λ (x : User). x.id == k) db.users ≢ 0) (ground (arith, mine, same))
          (find_weaken (λ (x : User). x.id == id) scope db.users old found))

  write_back : User → Handler User
  write_back u = do
    modify (put_user u)
    commit
    record_audit (
        entry "user.updated" (some u.organization_id) (some user.id) (some u.id)
          (("changes", names (Update.changed_keys body)) ∷ []) none)
    fetched ← or_raise (← gets (λ db. find (λ u'. u'.id == u.id) db.users)) user_not_found
    has_embedding ← gets (embedded fetched.id)
    emit_if (Update.active_change body && not fetched.is_active && has_embedding)
        fetched.organization_id fetched.id
    pure fetched

  written :
      (u : User)
      → find (λ x. x.id == u.id) (put_user u db).users ≡ some u
      → (Update.active_change body ≡ true → u.is_active ≡ true)
      → request (write_back u) db ≡ (
        ok u,
        add_entry
            (entry "user.updated"
              (some u.organization_id)
              (some user.id)
              (some u.id)
              (("changes", names (Update.changed_keys body)) ∷ [])
              none)
            (put_user u db),
        [],
      )
  unfolding request write_back
  written u there active = elim (Bool-cases (Update.active_change body)) [
    | inl e ↦ ground (arith, there, e, active e)
    | inr e ↦ ground (arith, there, e)
  ]

  finished :
      (old u : User)
      → IsManaged user id old db
      → (Update.changed_user p user body old (begin db)).0 ≡ ok u
      → UpdateOutcome user id db (request (write_back u) db)
  finished old u m h =
      let (same, active) = changed_Same p user db body old u h in
      subst (UpdateOutcome user id db) (sym (written u (stored old u m.0 same.same_id) active)) (
        old,
        m,
        same.allowed m.1,
        same.same_org,
        same.same_password,
        ap (λ k. update_where (λ x. x.id == k) (λ x. u) db.users) same.same_id,
        refl,
      )

  -- An update that is refused changes nothing. One that succeeds replaces the row of an account
  -- that the requester may manage and nothing else of the users: the organization and the password
  -- stay, a superadmin's account and the superadmin role are for superadmins only. No path takes
  -- the user out of the match index, also where the update deactivates the account.
  pub update_user_cases : UpdateOutcome user id db (request (Update.update_user p user id body) db)
  unfolding Update.update_user write_back
  update_user_cases =
      let Q = UpdateOutcome user id db in
      past_check Q db (managed_user id user) _ (IsCheck-managed_user user id) (λ f. (refl, refl))
        λ old m.
          past_check Q db (Update.changed_user p user body old) _
            (IsCheck-changed_user user p body old) (λ f. (refl, refl))
            λ u h. finished old u (managed_user_passed user id db old m) h

  managed_passes :
      (old : User) → IsManaged user id old db → managed_user id user (begin db) ≡ (ok old, begin db)
  managed_passes old m = ground (arith, m.0, m.1)

  -- the account under its new name, phone and activity
  abbrev pub touched : User → User
  touched old =
      Update.set_active body.is_active
        (Update.set_phone body.phone (Update.set_name p body.name old))

  changed_passes :
      (old : User)
      → body.external_id ≡ none
      → body.email ≡ none
      → body.department_id ≡ none
      → body.role ≡ none
      → Update.changed_user p user body old (begin db) ≡ (ok (touched old), begin db)
  unfolding Update.changed_user Update.set_external_id Update.set_email Update.set_department
      Update.set_role
  changed_passes old a b c e = rw (a, b, c, e) refl

  -- the account with the name, phone and activity that the request gives, and all else as it was
  abbrev pub as_requested : User → User
  as_requested old = record old {
    name = elim body.name [ none ↦ old.name | some name ↦ p.strip name ];
    phone = elim body.phone [ none ↦ old.phone | some phone ↦ some phone ];
    is_active = elim body.is_active [ none ↦ old.is_active | some b ↦ b ];
  }

  touched_lem :
      (old : User) (name phone : Option Text) (active : Option Bool)
      → Update.set_active active (Update.set_phone phone (Update.set_name p name old))
        ≡ record old {
          name = elim name [ none ↦ old.name | some n ↦ p.strip n ];
          phone = elim phone [ none ↦ old.phone | some x ↦ some x ];
          is_active = elim active [ none ↦ old.is_active | some b ↦ b ];
        }
  touched_lem old none none none = refl
  touched_lem old none none (some b) = refl
  touched_lem old none (some x) none = refl
  touched_lem old none (some x) (some b) = refl
  touched_lem old (some n) none none = refl
  touched_lem old (some n) none (some b) = refl
  touched_lem old (some n) (some x) none = refl
  touched_lem old (some n) (some x) (some b) = refl

  pub update_user_accepts :
      (old : User)
      → IsManaged user id old db
      → body.external_id ≡ none
      → body.email ≡ none
      → body.department_id ≡ none
      → body.role ≡ none
      → let out = request (Update.update_user p user id body) db in
        (out.0 ≡ ok (as_requested old))
        × (find (λ x. x.id == old.id) out.1.users ≡ some (as_requested old))
  unfolding Update.update_user write_back
  update_user_accepts old m a b c e =
      let passes = changed_passes old a b c e in
      let (same, active) = changed_Same p user db body old (touched old) (ap (λ r. r.0) passes) in
      let wanted : touched old ≡ as_requested old =
        touched_lem old body.name body.phone body.is_active in
      let there = stored old (touched old) m.0 same.same_id in
      let whole =
        request_past (managed_user id user) (λ u. Update.changed_user p user body u >>= write_back)
          old db (managed_passes old m)
        ∙ (request_past (Update.changed_user p user body old) write_back (touched old) db passes
            ∙ written (touched old) there active) in
      (
        ap (λ r. r.0) whole ∙ ap ok wanted,
        ap (λ r. find (λ (x : User). x.id == old.id) r.1.users) whole
            ∙ (subst
                  (λ k.
                    find (λ (x : User). x.id == k) (put_user (touched old) db).users
                    ≡ some (touched old))
                  same.same_id there
                ∙ ap some wanted),
      )
