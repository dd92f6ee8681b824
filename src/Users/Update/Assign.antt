-- ===== src/Users/Update/Assign.antt =====
-- The assignments of `update_user`: they write nothing themselves, and what they keep.
use attendance_tracker.Prelude.{
  ℕ, ◌≡◌, refl, Text, Option, none, some, Bool, true, inl, inr, arith, Option-cases, ◌∙◌, sym,
  subst,
}
use attendance_tracker.Database.Rows.{Db, User, superadmin}
use attendance_tracker.Database.Session.{Handler, ok, begin, ◌>>=◌, pure}
use attendance_tracker.Database.Refuse.{IsCheck, IsCheck-pure, ok_bind, check_rules}
use attendance_tracker.Platform.{Platform}
use attendance_tracker.Users.{managed_user, scoped_user}
use attendance_tracker.Users.Update

IsCheck-set_external_id : (x : Option Text) (u : User) → IsCheck (Update.set_external_id x u)
unfolding Update.set_external_id
IsCheck-set_external_id none u = IsCheck-pure u
IsCheck-set_external_id (some x) u = search check_rules depth 6

IsCheck-set_email : (p : Platform) (x : Option Text) (u : User) → IsCheck (Update.set_email p x u)
unfolding Update.set_email
IsCheck-set_email p none u = IsCheck-pure u
IsCheck-set_email p (some x) u = search check_rules depth 6

IsCheck-set_department :
    (user : User) (x : Option ℕ) (u : User) → IsCheck (Update.set_department user x u)
unfolding Update.set_department
IsCheck-set_department user none u = IsCheck-pure u
IsCheck-set_department user (some x) u = search check_rules depth 6

module _ (user : User) where
  IsCheck-set_role : (x : Option Update.Role) (u : User) → IsCheck (Update.set_role user x u)
  unfolding Update.set_role
  IsCheck-set_role none u = IsCheck-pure u
  IsCheck-set_role (some x) u = search check_rules depth 6

  pub IsCheck-managed_user : (id : ℕ) → IsCheck (managed_user id user)
  IsCheck-managed_user id = search check_rules depth 8

  pub IsCheck-changed_user :
      (p : Platform) (body : Update.UserUpdate) (u : User)
      → IsCheck (Update.changed_user p user body u)
  unfolding Update.changed_user
  IsCheck-changed_user p body u =
      search
        (
          IsCheck-set_external_id, IsCheck-set_email, IsCheck-set_department, IsCheck-set_role,
          check_rules,
        )
        depth 10

-- `old` is the account of the id that the requester may manage
abbrev pub IsManaged : User → ℕ → User → Db → Type 0
IsManaged user id old db =
    (scoped_user id user db ≡ some old) × (old.role ≡ superadmin → user.role ≡ superadmin)

pub managed_user_passed :
    (user : User) (id : ℕ) (db : Db) (old : User)
    → (managed_user id user (begin db)).0 ≡ ok old
    → IsManaged user id old db
managed_user_passed user id db old h = elim (Option-cases (scoped_user id user db)) [
  | inl e ↦ absurd (ground (arith, e, h))
  | inr (u, e) ↦ (ground (arith, e, h), ground (arith, e, h))
]

-- what the assignments keep
pub record Same (user old u : User) : Type 0 where
  pub same_id : u.id ≡ old.id
  pub same_org : u.organization_id ≡ old.organization_id
  pub same_password : u.password_hash ≡ old.password_hash
  pub allowed :
      (old.role ≡ superadmin → user.role ≡ superadmin)
      → u.role ≡ superadmin
      → user.role ≡ superadmin

Same-trans : (user a b c : User) → Same user a b → Same user b c → Same user a c
Same-trans user a b c x y = record {
  same_id = y.same_id ∙ x.same_id;
  same_org = y.same_org ∙ x.same_org;
  same_password = y.same_password ∙ x.same_password;
  allowed = λ h. y.allowed (x.allowed h);
}

Same-fields :
    (user a b : User)
    → b.id ≡ a.id
    → b.organization_id ≡ a.organization_id
    → b.password_hash ≡ a.password_hash
    → b.role ≡ a.role
    → Same user a b
Same-fields user a b i o h r = record {
  same_id = i;
  same_org = o;
  same_password = h;
  allowed = λ k e. k (sym r ∙ e);
}

module _ (p : Platform) (user : User) (db : Db) where
  set_name-Same : (x : Option Text) (a : User) → Same user a (Update.set_name p x a)
  set_name-Same none a = Same-fields user a a refl refl refl refl
  set_name-Same (some x) a = Same-fields user a _ refl refl refl refl

  set_phone-Same : (x : Option Text) (a : User) → Same user a (Update.set_phone x a)
  set_phone-Same none a = Same-fields user a a refl refl refl refl
  set_phone-Same (some x) a = Same-fields user a _ refl refl refl refl

  set_active-Same : (x : Option Bool) (a : User) → Same user a (Update.set_active x a)
  set_active-Same none a = Same-fields user a a refl refl refl refl
  set_active-Same (some x) a = Same-fields user a _ refl refl refl refl

  set_external_id-Same :
      (x : Option Text) (a b : User)
      → (Update.set_external_id x a (begin db)).0 ≡ ok b
      → Same user a b
  unfolding Update.set_external_id
  set_external_id-Same x a b h =
      Same-fields user a b (ground (arith, h)) (ground (arith, h)) (ground (arith, h))
        (ground (arith, h))

  set_email-Same :
      (x : Option Text) (a b : User) → (Update.set_email p x a (begin db)).0 ≡ ok b → Same user a b
  unfolding Update.set_email
  set_email-Same x a b h =
      Same-fields user a b (ground (arith, h)) (ground (arith, h)) (ground (arith, h))
        (ground (arith, h))

  set_department-Same :
      (x : Option ℕ) (a b : User)
      → (Update.set_department user x a (begin db)).0 ≡ ok b
      → Same user a b
  unfolding Update.set_department
  set_department-Same x a b h =
      Same-fields user a b (ground (arith, h)) (ground (arith, h)) (ground (arith, h))
        (ground (arith, h))

  set_role-Same :
      (x : Option Update.Role) (a b : User)
      → (Update.set_role user x a (begin db)).0 ≡ ok b
      → Same user a b
  unfolding Update.set_role
  set_role-Same x a b h = record {
    same_id = ground (arith, h);
    same_org = ground (arith, h);
    same_password = ground (arith, h);
    allowed = λ k e. ground (arith, h, k, e);
  }

  pub changed_Same :
      (body : Update.UserUpdate) (old u : User)
      → (Update.changed_user p user body old (begin db)).0 ≡ ok u
      → Same user old u × (Update.active_change body ≡ true → u.is_active ≡ true)
  unfolding Update.changed_user
  changed_Same body old u h =
      let n = Update.set_name p body.name old in
      let k4 : User → Handler User = λ e. pure (Update.set_active body.is_active e) in
      let k3 : User → Handler User = λ c. Update.set_role user body.role c >>= k4 in
      let k2 : User → Handler User =
        λ b. Update.set_department user body.department_id (Update.set_phone body.phone b) >>= k3 in
      let k1 : User → Handler User = λ a. Update.set_email p body.email a >>= k2 in
      let (a, ha, h1) =
        ok_bind (Update.set_external_id body.external_id n) k1 (begin db) u
          (IsCheck-set_external_id body.external_id n) h in
      let (b, hb, h2) =
        ok_bind (Update.set_email p body.email a) k2 (begin db) u (IsCheck-set_email p body.email a)
          h1 in
      let t = Update.set_phone body.phone b in
      let (c, hc, h3) =
        ok_bind (Update.set_department user body.department_id t) k3 (begin db) u
          (IsCheck-set_department user body.department_id t) h2 in
      let (e, he, h4) =
        ok_bind (Update.set_role user body.role c) k4 (begin db) u
          (IsCheck-set_role user body.role c) h3 in
      let last : Update.set_active body.is_active e ≡ u = ground (arith, h4) in
      let same : Same user old (Update.set_active body.is_active e) =
        Same-trans user _ _ _ (set_name-Same body.name old) (
          Same-trans user _ _ _ (set_external_id-Same body.external_id n a ha) (
            Same-trans user _ _ _ (set_email-Same body.email a b hb) (
              Same-trans user _ _ _ (set_phone-Same body.phone b) (
                Same-trans user _ _ _ (set_department-Same body.department_id t c hc) (
                  Same-trans user _ _ _ (set_role-Same body.role c e he)
                    (set_active-Same body.is_active e)))))) in
      (subst (Same user old) last same, λ k. ground (arith, last, k))
