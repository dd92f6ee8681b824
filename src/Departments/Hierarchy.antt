-- ===== src/Departments/Hierarchy.antt =====
-- The two levels of the hierarchy: creation keeps them, an update need not.
use attendance_tracker.Prelude.{
  ℕ, ◌≡◌, ◌≢◌, Option, none, some, false, List, [], ◌∷◌, ◌++◌, ◌⊎◌, inl, inr, arith, ◌==◌, subst,
  sym, find, Bool-cases, Option-cases, find-append, find_narrow, find_snoc_cases, find_and,
  find-update_where_on, Keyed, updated, map_option, is_some, update_where, ap, ◌∙◌,
}
use attendance_tracker.Database.Rows.{Db, User, Department}
use attendance_tracker.Database.Session.{Result, Effect, request}
use attendance_tracker.Platform.{Platform}
use attendance_tracker.Departments

abbrev pub dept_of : ℕ → Db → Option Department
dept_of id db = find (λ x. x.id == id) db.departments

-- The parent of a department is there, belongs to its organization and has no parent.
abbrev pub HasRoot : Db → Department → Type 0
HasRoot db x =
    (pid : ℕ)
    → x.parent_id ≡ some pid
    → (par : Department) × (dept_of pid db ≡ some par)
      × (par.parent_id ≡ none)
      × (par.organization_id ≡ x.organization_id)

pub record TwoLevels (db : Db) : Type 0 where
  pub root : (id : ℕ) (x : Department) → dept_of id db ≡ some x → HasRoot db x

module _ (p : Platform) (new_id : ℕ) (user : User) (body : Departments.DepartmentCreate) where
  abbrev pub created : Db → Result Department × Db × List Effect
  created db = request (Departments.create_department p new_id user body) db

  abbrev fresh : Department
  fresh = Departments.new_department p new_id user body

  name_row : Db → Option Department
  name_row db = find (Departments.named user.organization_id (p.strip body.name)) db.departments

  -- a parent that the tests let through
  parent_ok :
      (db : Db) (pid : ℕ) (par : Department)
      → Keyed (λ x. x.id) db.departments
      → body.parent_id ≡ some pid
      → Departments.scoped_department pid user.organization_id db ≡ some par
      → is_some par.parent_id ≡ false
      → HasRoot db fresh
  parent_ok db pid par keys e f root q given =
      let (found, own) =
        find_narrow (λ x. x.id) pid (λ x. x.organization_id == user.organization_id) db.departments
          par keys f in
      (
        par,
        subst (λ k. dept_of k db ≡ some par) (ground (arith, e, given)) found,
        ground (arith, root),
        ground (arith, own),
      )

  create_cases :
      (db : Db)
      → Keyed (λ x. x.id) db.departments
      → ((created db).1.departments ≡ db.departments)
        ⊎ (((created db).1.departments ≡ db.departments ++ fresh ∷ []) × HasRoot db fresh)
  unfolding Departments.create_department request name_row
  create_cases db keys = elim (Option-cases (name_row db)) [
    | inr (x, taken) ↦ inl (ground arith)
    | inl free ↦ elim (Option-cases body.parent_id) [
      | inl top ↦ inr (ground arith, λ pid given. absurd (ground arith))
      | inr (pid, e) ↦
          elim (Option-cases (Departments.scoped_department pid user.organization_id db)) [
            | inl f ↦ inl (ground arith)
            | inr (par, f) ↦ elim (Bool-cases (is_some par.parent_id)) [
              | inl deep ↦ inl (ground arith)
              | inr root ↦ inr (ground arith, parent_ok db pid par keys e f root)
            ]
          ]
    ]
  ]

  kept_root :
      (db db' : Db) (x : Department)
      → db'.departments ≡ db.departments ++ fresh ∷ []
      → HasRoot db x
      → HasRoot db' x
  kept_root db db' x e h pid given =
      let (par, found, root, own) = h pid given in
      (
        par,
        ground (
          arith,
          e,
          found,
          find-append (λ (y : Department). y.id == pid) db.departments (fresh ∷ []),
        ),
        root,
        own,
      )

  -- A creation, whether it succeeds or not, leaves at most two levels where ids are unique and
  -- there were at most two.
  pub create_department-TwoLevels :
      (db : Db) → Keyed (λ x. x.id) db.departments → TwoLevels db → TwoLevels (created db).1
  create_department-TwoLevels db keys h = elim (create_cases db keys) [
    | inl same ↦ record {
      root = λ id x found pid given.
          let (par, there, top, own) =
            h.root id x (subst (λ ds. find (λ y. y.id == id) ds ≡ some x) same found) pid given in
          (par, subst (λ ds. find (λ y. y.id == pid) ds ≡ some par) (sym same) there, top, own);
    }
    | inr (more, new) ↦ record {
      root = λ id x found.
          kept_root db (created db).1 x more
            (elim (find_snoc_cases (λ y. y.id == id) db.departments fresh x
              (subst (λ ds. find (λ y. y.id == id) ds ≡ some x) more found)) [
                | inl there ↦ h.root id x there
                | inr e ↦ subst (HasRoot db) e new
              ]);
    }
  ]

module _ (p : Platform) (user : User) where
  -- the tables after `update_department` put `x` under the department `pid`
  abbrev pub put_under : ℕ → ℕ → Db → Db
  put_under id pid db =
      (request
        (Departments.update_department p user id (record { name = none; parent_id = some pid }))
        db).1

  put_under_accepts :
      (x y : Department) (db : Db)
      → x.id ≢ y.id
      → dept_of x.id db ≡ some x
      → dept_of y.id db ≡ some y
      → x.organization_id ≡ user.organization_id
      → y.organization_id ≡ user.organization_id
      → (put_under x.id y.id db).departments
        ≡ update_where (λ z. z.id == x.id) (λ z. record x { parent_id = some y.id }) db.departments
  unfolding Departments.update_department request
  put_under_accepts x y db ne fx fy ox oy =
      let own = λ (z : Department). z.organization_id == user.organization_id in
      ground (
        arith,
        find_and (λ (z : Department). z.id == x.id) own db.departments x fx (ground (arith, ox)),
        find_and (λ (z : Department). z.id == y.id) own db.departments y fy (ground (arith, oy)),
      )

  -- what a lookup finds after it
  dept_of-put_under :
      (x y : Department) (db : Db) (id : ℕ)
      → x.id ≢ y.id
      → dept_of x.id db ≡ some x
      → dept_of y.id db ≡ some y
      → x.organization_id ≡ user.organization_id
      → y.organization_id ≡ user.organization_id
      → dept_of id (put_under x.id y.id db)
        ≡ map_option
            (updated (λ z. z.id == x.id) (λ z. record x { parent_id = some y.id }))
            (dept_of id db)
  dept_of-put_under x y db id ne fx fy ox oy =
      ap (λ (ds : List Department). find (λ z. z.id == id) ds)
        (put_under_accepts x y db ne fx fy ox oy)
      ∙ find-update_where_on (λ (z : Department). z.id == id) (λ z. z.id == x.id)
          (λ z. record x { parent_id = some y.id }) db.departments (λ z same. ground (arith, same))

  -- An update may give two departments of an organization each other as parent: moving the first
  -- under the second and then the second under the first is accepted both times.
  pub update_department_cycle :
      (db : Db) (a b : Department)
      → Keyed (λ x. x.id) db.departments
      → a.id ≢ b.id
      → Departments.scoped_department a.id user.organization_id db ≡ some a
      → Departments.scoped_department b.id user.organization_id db ≡ some b
      → let after = put_under b.id a.id (put_under a.id b.id db) in
        (dept_of a.id after ≡ some (record a { parent_id = some b.id }))
        × (dept_of b.id after ≡ some (record b { parent_id = some a.id }))
  update_department_cycle db a b keys ne sa sb =
      let own = λ (z : Department). z.organization_id == user.organization_id in
      let (fa, oa) = find_narrow (λ x. x.id) a.id own db.departments a keys sa in
      let (fb, ob) = find_narrow (λ x. x.id) b.id own db.departments b keys sb in
      let a' : Department = record a { parent_id = some b.id } in
      let mid = put_under a.id b.id db in
      let fa' : dept_of a.id mid ≡ some a' = ground (
        arith,
        fa,
        dept_of-put_under a b db a.id ne fa fb (ground (arith, oa)) (ground (arith, ob)),
      ) in
      let fb' : dept_of b.id mid ≡ some b = ground (
        arith,
        fb,
        ne,
        dept_of-put_under a b db b.id ne fa fb (ground (arith, oa)) (ground (arith, ob)),
      ) in
      (
        ground (
          arith,
          fa',
          ne,
          dept_of-put_under b a' mid a.id (λ e. ne (sym e)) fb' fa' (ground (arith, ob))
              (ground (arith, oa)),
        ),
        ground (
          arith,
          fb',
          ne,
          dept_of-put_under b a' mid b.id (λ e. ne (sym e)) fb' fa' (ground (arith, ob))
              (ground (arith, oa)),
        ),
      )
