-- ===== src/SignIn/Login.antt =====
-- What a sign-in answers and leaves in the tables, on every path.
use attendance_tracker.Prelude.{
  ◌+◌, ◌≡◌, ◌↔◌, refl, sym, ap, ◌∙◌, none, some, true, false, List, [], ◌∷◌, ◌++◌, arith, find,
  length, Bool-cases, Option-cases, inl, inr, ◌⊎◌, length-snoc,
}
use attendance_tracker.Database.Rows.{Db, User, Organization}
use attendance_tracker.Database.Session.{Result, Failure, Effect, ok, err, request}
use attendance_tracker.Platform.{Platform, Settings, Draws}
use attendance_tracker.Tokens.{revoke_sessions, is_live_of, bump, fresh_record}
use attendance_tracker.Reset
use attendance_tracker.SignIn
use attendance_tracker.Audit.{entry}

module _ (p : Platform) (st : Settings) (d : Draws) (body : SignIn.LoginRequest)
    (r : SignIn.HttpRequest) where
  abbrev pub login_on : Db → Result (SignIn.TokenResponse p) × Db × List Effect
  login_on db = request (SignIn.login p st d body r) db

  -- The org and user whose password a request presents.
  pub record Presents (db : Db) (org : Organization) (user : User) : Type 0 where
    pub org_found : SignIn.org_of_slug body.organization_slug db ≡ some org
    pub org_active : org.is_active ≡ true
    pub user_found :
        find (Reset.member_with_email org.id (p.strip (p.lower body.email))) db.users ≡ some user
    pub password : SignIn.password_ok p body.password user ≡ true

  -- A sign-in that presents the password of an active user succeeds: it stores one refresh token
  -- and one audit row, and answers with a pair of tokens.
  pub login_accepts :
      (db : Db) (org : Organization) (user : User)
      → Presents db org user
      → user.is_active ≡ true
      → ((login_on db).0
          ≡ ok (
              SignIn.token_response p
                (attendance_tracker.Tokens.token_pair p st d user)
                user
                org.id))
        × ((login_on db).1.refresh_tokens
            ≡ db.refresh_tokens ++ fresh_record st d user (SignIn.client_ip p r) ∷ [])
        × ((login_on db).1.users ≡ db.users)
        × ((login_on db).1.audit_log
            ≡ db.audit_log
              ++ entry "auth.login_success"
                  (some org.id)
                  (some user.id)
                  none
                  []
                  (SignIn.client_ip p r)
                ∷ [])
  unfolding SignIn.login request
  login_accepts db org user h a =
      ground (arith, h.org_found, h.org_active, h.user_found, h.password, a)

  -- Every other sign-in stores nothing but one audit row, and says only "Invalid credentials",
  -- unless the request presents the password of a user that is not active.
  pub login_refuses :
      (db : Db) (f : Failure)
      → (login_on db).0 ≡ err f
      → ((login_on db).1.refresh_tokens ≡ db.refresh_tokens)
        × ((login_on db).1.users ≡ db.users)
        × (length (login_on db).1.audit_log ≡ length db.audit_log + 1)
        × ((f ≡ SignIn.bad_login)
            ⊎ ((org : Organization) × (user : User) × Presents db org user
                × (user.is_active ≡ false)))
  unfolding SignIn.login request
  login_refuses db f h = elim (Option-cases (SignIn.org_of_slug body.organization_slug db)) [
    | inl e ↦ (ground arith, ground arith, grind (arith, length-snoc), inl (ground arith))
    | inr (org, e) ↦
        elim (Option-cases
          (find (Reset.member_with_email org.id (p.strip (p.lower body.email))) db.users)) [
            | inl g ↦ (ground arith, ground arith, grind (arith, length-snoc), inl (ground arith))
            | inr (user, g) ↦ (
              ground arith,
              ground arith,
              grind (arith, length-snoc),
              elim (Bool-cases org.is_active) [
                | inr closed ↦ inl (ground arith)
                | inl active ↦ elim (Bool-cases (SignIn.password_ok p body.password user)) [
                  | inr wrong ↦ inl (ground arith)
                  | inl right ↦ inr (
                    org,
                    user,
                    record { org_found = e; org_active = active; user_found = g; password = right },
                    ground arith,
                  )
                ]
              ],
            )
          ]
  ]

  login_needs :
      (db : Db) (t : SignIn.TokenResponse p)
      → (login_on db).0 ≡ ok t
      → (org : Organization) × (user : User) × Presents db org user × (user.is_active ≡ true)
  unfolding SignIn.login request
  login_needs db t h = elim (Option-cases (SignIn.org_of_slug body.organization_slug db)) [
    | inl e ↦ absurd (ground (arith, e, h))
    | inr (org, e) ↦
        elim (Option-cases
          (find (Reset.member_with_email org.id (p.strip (p.lower body.email))) db.users)) [
            | inl g ↦ absurd (ground (arith, e, g, h))
            | inr (user, g) ↦ (
              org,
              user,
              record {
                org_found = e;
                org_active = ground (arith, e, g, h);
                user_found = g;
                password = ground (arith, e, g, h);
              },
              ground (arith, e, g, h),
            )
          ]
  ]

  -- who signs in
  abbrev pub MaySignIn : Db → Type 0
  MaySignIn db =
      (org : Organization) × (user : User) × Presents db org user × (user.is_active ≡ true)

  abbrev pub LoginOutcome : Db → Result (SignIn.TokenResponse p) × Db × List Effect → Type 0
  LoginOutcome db (ok t, db', es) =
      (org : Organization) × (user : User) × Presents db org user
      × (user.is_active ≡ true)
      × (t ≡ SignIn.token_response p (attendance_tracker.Tokens.token_pair p st d user) user org.id)
      × (db'.refresh_tokens
          ≡ db.refresh_tokens ++ fresh_record st d user (SignIn.client_ip p r) ∷ [])
      × (db'.users ≡ db.users)
      × (length db'.audit_log ≡ length db.audit_log + 1)
  LoginOutcome db (err f, db', es) =
      (db'.refresh_tokens ≡ db.refresh_tokens)
      × (db'.users ≡ db.users)
      × (length db'.audit_log ≡ length db.audit_log + 1)
      × ((f ≡ SignIn.bad_login)
          ⊎ ((org : Organization) × (user : User) × Presents db org user
              × (user.is_active ≡ false)))

  accepted :
      (db db' : Db) (es : List Effect) (t : SignIn.TokenResponse p)
      → login_on db ≡ (ok t, db', es)
      → LoginOutcome db (ok t, db', es)
  accepted db db' es t h =
      let (org, user, presents, active) = login_needs db t (ap (λ x. x.0) h) in
      let (answer, tokens, users, audit) = login_accepts db org user presents active in
      (
        org,
        user,
        presents,
        active,
        ground (arith, answer, h),
        sym (ap (λ x. x.1.refresh_tokens) h) ∙ tokens,
        sym (ap (λ x. x.1.users) h) ∙ users,
        sym (ap (λ x. length x.1.audit_log) h) ∙ ap length audit ∙ length-snoc db.audit_log _,
      )

  refused :
      (db db' : Db) (es : List Effect) (f : Failure)
      → login_on db ≡ (err f, db', es)
      → LoginOutcome db (err f, db', es)
  refused db db' es f h =
      let (tokens, users, audit, why) = login_refuses db f (ap (λ x. x.0) h) in
      (
        sym (ap (λ x. x.1.refresh_tokens) h) ∙ tokens,
        sym (ap (λ x. x.1.users) h) ∙ users,
        sym (ap (λ x. length x.1.audit_log) h) ∙ audit,
        why,
      )

  classify :
      (db : Db) (out : Result (SignIn.TokenResponse p) × Db × List Effect)
      → login_on db ≡ out
      → LoginOutcome db out
  classify db (ok t, db', es) h = accepted db db' es t h
  classify db (err f, db', es) h = refused db db' es f h

  -- A sign-in succeeds exactly if it presents the password of an active user of an active
  -- organization. It then answers a pair of tokens for that user and stores one refresh token.
  -- Every other one stores no token, and says only "Invalid credentials" unless it presents the
  -- password of a user that is not active. Both add one audit row and leave the users as they are.
  pub login_exactly :
      (db : Db)
      → LoginOutcome db (login_on db)
        × (((t : SignIn.TokenResponse p) × ((login_on db).0 ≡ ok t)) ↔ MaySignIn db)
  login_exactly db = (
    classify db (login_on db) refl,
    (
      λ (t, h). login_needs db t h,
      λ (org, user, presents, active). (_, (login_accepts db org user presents active).0),
    ),
  )
