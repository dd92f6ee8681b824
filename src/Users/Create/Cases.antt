-- ===== src/Users/Create/Cases.antt =====
-- What a creation leaves, on every path.
use attendance_tracker.Prelude.{
  ℕ, ◌<◌, ◌≡◌, ◌≢◌, refl, Text, Option, none, some, Bool, true, false, not, ◌&&◌, List, [], ◌∷◌,
  ◌++◌, leb, inl, inr, is_some, find, arith, Bool-cases, Option-cases, ⊤, ◌≤◌, utf8_length,
}
use attendance_tracker.Database.Rows.{Db, role_name, User, Organization, superadmin, org_admin}
use attendance_tracker.Database.Session.{
  request, Result, Effect, ok, err, begin, ◌>>◌, modify, commit, pure,
}
use attendance_tracker.Database.Refuse.{IsCheck, IsCheck-pure, past_check, check_rules}
use attendance_tracker.Platform.{Platform, Draws, Settings}
use attendance_tracker.Passwords.{validate_password_strength, get_password_hash}
use attendance_tracker.Departments.{scoped_department}
use attendance_tracker.Audit.{entry, record_audit}
use attendance_tracker.Reset.{member_with_email}
use attendance_tracker.Users.Create

pub IsCheck-check_department :
    (organization_id : ℕ) (id : Option ℕ) → IsCheck (Create.check_department organization_id id)
unfolding Create.check_department
IsCheck-check_department organization_id none = IsCheck-pure tt
IsCheck-check_department organization_id (some id) = search check_rules depth 6

IsCheck-check_external_id :
    (organization_id : ℕ) (x : Option Text) → IsCheck (Create.check_external_id organization_id x)
unfolding Create.check_external_id
IsCheck-check_external_id organization_id none = IsCheck-pure tt
IsCheck-check_external_id organization_id (some x) = search check_rules depth 6

IsCheck-check_email :
    (p : Platform) (organization_id : ℕ) (x : Option Text)
    → IsCheck (Create.check_email p organization_id x)
unfolding Create.check_email
IsCheck-check_email p organization_id none = IsCheck-pure tt
IsCheck-check_email p organization_id (some x) = search check_rules depth 6

IsCheck-initial_hash :
    (p : Platform) (d : Draws) (x : Option Text) → IsCheck (Create.initial_hash p d x)
unfolding Create.initial_hash
IsCheck-initial_hash p d none = IsCheck-pure none
IsCheck-initial_hash p d (some x) = search check_rules depth 8

IsCheck-check_new_user :
    (p : Platform) (user : User) (body : Create.UserCreate)
    → IsCheck (Create.check_new_user p user body)
unfolding Create.check_new_user
IsCheck-check_new_user p user body =
    search (IsCheck-check_external_id, IsCheck-check_email, check_rules) depth 12

-- the role of a new account is one that the requester may give
abbrev pub MayGive : User → Create.UserCreate → Type 0
MayGive user body =
    (body.role ≡ superadmin → user.role ≡ superadmin)
    × (user.role ≡ org_admin → body.role ≢ org_admin)

abbrev pub HasRoom : User → Db → Type 0
HasRoom user db =
    (org : Organization) × (Create.org_of user.organization_id db ≡ some org)
    × (Create.users_of user.organization_id db < org.max_users)

abbrev pub InOrg : User → Option ℕ → Db → Type 0
InOrg user id db =
    (k : ℕ) → id ≡ some k → is_some (scoped_department k user.organization_id db) ≡ true

-- no other row has the keys
abbrev pub AreFree : Platform → User → Create.UserCreate → Db → Type 0
AreFree p user body db =
    ((x : Text)
      → body.external_id ≡ some x
      → find (Create.with_external_id user.organization_id x) db.users ≡ none)
    × ((x : Text)
        → body.email ≡ some x
        → find (member_with_email user.organization_id (p.lower x)) db.users ≡ none)

-- the password of the request, if there is one, is strong and short enough
abbrev pub IsGood : Platform → Option Text → Type 0
IsGood p none = ⊤
IsGood p (some x) = ((validate_password_strength p x).0 ≡ true) × (utf8_length x ≤ 72)

abbrev pub CreateOutcome :
    Platform → Draws → User → Create.UserCreate → Db → Result User × Db × List Effect → Type 0
CreateOutcome p d user body db (err f, db', es) = (db' ≡ db) × (es ≡ [])
CreateOutcome p d user body db (ok new, db', es) =
    MayGive user body
    × HasRoom user db
    × InOrg user body.department_id db
    × AreFree p user body db
    × IsGood p body.password
    × (new.organization_id ≡ user.organization_id)
    × (db'.users ≡ db.users ++ new ∷ [])

module _ (p : Platform) (st : Settings) (d : Draws) (user : User) (body : Create.UserCreate)
    (db : Db) where
  org_room : Option Organization → Bool
  org_room none = false
  org_room (some org) = not (leb org.max_users (Create.users_of user.organization_id db))

  new_user_passed :
      (Create.check_new_user p user body (begin db)).0 ≡ ok tt
      → MayGive user body × HasRoom user db × AreFree p user body db
  unfolding Create.check_new_user Create.check_external_id Create.check_email
  new_user_passed h = elim (Option-cases (Create.org_of user.organization_id db)) [
    | inl e ↦ absurd (ground (arith, e, h))
    | inr (org, e) ↦ (
      (λ r. ground (arith, e, h, r), λ r q. ground (arith, e, h, r, q)),
      (org, e, ground (arith, e, h)),
      (λ x f. ground (arith, e, h, f), λ x f. ground (arith, e, h, f)),
    )
  ]

  department_passed :
      (Create.check_department user.organization_id body.department_id (begin db)).0 ≡ ok tt
      → InOrg user body.department_id db
  unfolding Create.check_department
  department_passed h k e = ground (arith, h, e)

  password_passed :
      (x : Option Text) (hash : Option ℕ)
      → (Create.initial_hash p d x (begin db)).0 ≡ ok hash
      → IsGood p x
  unfolding Create.initial_hash get_password_hash
  password_passed none hash h = tt
  password_passed (some x) hash h = (ground (arith, h), ground (arith, h))

  finished :
      (hash : Option ℕ)
      → MayGive user body × HasRoom user db × AreFree p user body db
      → InOrg user body.department_id db
      → IsGood p body.password
      → CreateOutcome p d user body db (
          request
            (do
              modify (Create.add_user (Create.new_user p d user body hash))
              commit
              Create.invite st body.send_invite_email (Create.new_user p d user body hash)
              record_audit (
                  entry "user.created"
                    (some user.organization_id)
                    (some user.id)
                    (some d.new_id)
                    (("role", role_name body.role) ∷ [])
                    none)
              pure (Create.new_user p d user body hash))
            db)
  unfolding request
  finished hash a c g =
      elim (Bool-cases (
        body.send_invite_email
        && is_some (Create.stored_email p body.email)
        && st.email_enabled
        && st.enable_email)) [
          | inl e ↦ rw e (a.0, a.1, c, a.2, g, refl, refl)
          | inr e ↦ rw e (a.0, a.1, c, a.2, g, refl, refl)
        ]

  -- A creation that is refused changes nothing and sends nothing. One that succeeds adds the row
  -- that it answers, in the requester's organization, which had room for it; the role is one the
  -- requester may give, the department is one of the organization, and no other account has the
  -- external id or address; a password is strong and of at most 72 bytes.
  pub create_user_cases :
      CreateOutcome p d user body db (request (Create.create_user p st d user body) db)
  unfolding Create.create_user
  create_user_cases =
      let Q = CreateOutcome p d user body db in
      past_check Q db (Create.check_new_user p user body) _ (IsCheck-check_new_user p user body)
        (λ f. (refl, refl))
        λ _ a.
          past_check Q db (Create.initial_hash p d body.password) _
            (IsCheck-initial_hash p d body.password) (λ f. (refl, refl))
            λ hash b.
              past_check Q db (Create.check_department user.organization_id body.department_id) _
                (IsCheck-check_department user.organization_id body.department_id)
                (λ f. (refl, refl))
                λ _ c.
                  finished hash (new_user_passed a) (department_passed c)
                    (password_passed body.password hash b)
