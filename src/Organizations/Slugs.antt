-- ===== src/Organizations/Slugs.antt =====
-- Slugs stay well formed and unique, whatever the order of the requests on organizations.
use attendance_tracker.Prelude.{
  ℕ, ◌≤◌, ◌≡◌, refl, sym, ap, ◌∙◌, Text, none, some, Bool, true, List, [], ◌∷◌, ◌++◌, ◌⊎◌, inl, inr,
  ◌==◌, ==_iff, find, count, update_where, All, All-append, All_find, All-every, All-map,
  find_holds, All-update_where, All-of_count, Keyed, count-append, text_eq, text_eq_iff, Bool-cases,
  Option-cases, arith, subst,
}
use attendance_tracker.Database.Rows.{Db, User, Organization, is_superadmin}
use attendance_tracker.Database.Session.{request}
use attendance_tracker.Platform.{Platform}
use attendance_tracker.Identity.{get_superadmin_user}
use attendance_tracker.Organizations
use attendance_tracker.Organizations.{with_id, has_slug}

pub record SlugsValid (orgs : List Organization) : Type 0 where
  pub well_formed : All (λ o. Organizations.is_slug o.slug ≡ true) orgs
  pub unique : (s : Text) → count (has_slug s) orgs ≤ 1
  pub keyed : Keyed Organization.id orgs

Keyed-snoc :
    (orgs : List Organization) (o : Organization)
    → Keyed Organization.id orgs
    → count (with_id o.id) orgs ≡ 0
    → Keyed Organization.id (orgs ++ o ∷ [])
Keyed-snoc [] o u free = (refl, tt)
Keyed-snoc (x ∷ orgs) o u free = (
  ground (arith, u.0, free, count-append (λ (y : Organization). y.id == x.id) orgs (o ∷ [])),
  Keyed-snoc orgs o u.1 (ground (arith, free)),
)

module _ (q : Organization → Bool) (f : Organization → Organization) where
  count_kept :
      (p : Organization → Bool) (orgs : List Organization)
      → All (λ o. q o ≡ true → p (f o) ≡ p o) orgs
      → count p (update_where q f orgs) ≡ count p orgs
  count_kept p [] h = refl
  count_kept p (o ∷ orgs) h = elim (Bool-cases (q o)) [
    | inl e ↦ ground (arith, e, h.0 e, count_kept p orgs h.1)
    | inr e ↦ ground (arith, e, count_kept p orgs h.1)
  ]

-- under the primary key, the row that is found is the only one
found_only :
    (id : ℕ) (orgs : List Organization) (old : Organization)
    → Keyed Organization.id orgs
    → find (with_id id) orgs ≡ some old
    → All (λ o. with_id id o ≡ true → o ≡ old) orgs
found_only id [] old u h = tt
found_only id (x ∷ orgs) old u h = elim (Bool-cases (with_id id x)) [
  | inl e ↦
      let others : count (with_id id) orgs ≡ 0 =
        subst (λ k. count (with_id k) orgs ≡ 0) ((==_iff x.id id).0 e) u.0 in
      (
        λ e'. ground (arith, e, h),
        All-map _ _ orgs (λ o no yes. absurd (ground (arith, no, yes)))
            (All-of_count (with_id id) orgs others),
      )
  | inr e ↦
      (λ e'. absurd (ground (arith, e, e')), found_only id orgs old u.1 (ground (arith, e, h)))
]

id_kept :
    (o : Organization) (k : ℕ) (orgs : List Organization)
    → count (λ y. y.id == k) (update_where (with_id o.id) (λ x. o) orgs)
      ≡ count (λ (y : Organization). y.id == k) orgs
id_kept o k orgs =
    count_kept (with_id o.id) (λ x. o) (λ y. y.id == k) orgs
      (All-every _ orgs (λ y e. ap (λ j. j == k) (sym ((==_iff y.id o.id).0 e))))

Keyed-put :
    (o : Organization) (orgs : List Organization)
    → Keyed Organization.id orgs
    → Keyed Organization.id (update_where (with_id o.id) (λ x. o) orgs)
Keyed-put o [] u = tt
Keyed-put o (x ∷ orgs) u = elim (Bool-cases (with_id o.id x)) [
  | inl e ↦
      let same : x.id ≡ o.id = (==_iff x.id o.id).0 e in
      rw e (
        id_kept o o.id orgs
            ∙ subst (λ k. count (λ (y : Organization). y.id == k) orgs ≡ 0) same u.0,
        Keyed-put o orgs u.1,
      )
  | inr e ↦ rw e (id_kept o x.id orgs ∙ u.0, Keyed-put o orgs u.1)
]

count-none :
    (q : Organization → Bool) (orgs : List Organization) → find q orgs ≡ none → count q orgs ≡ 0
count-none q [] h = refl
count-none q (o ∷ orgs) h = ground (arith, h, count-none q orgs)

module _ (orgs : List Organization) (v : SlugsValid orgs) where
  -- the rows after a creation that the handler accepts
  added-SlugsValid :
      (o : Organization)
      → Organizations.is_slug o.slug ≡ true
      → count (has_slug o.slug) orgs ≡ 0
      → count (with_id o.id) orgs ≡ 0
      → SlugsValid (orgs ++ o ∷ [])
  added-SlugsValid o good free fresh = record {
    well_formed = All-append _ orgs (o ∷ []) v.well_formed (good, tt);
    unique = λ s. elim (Bool-cases (text_eq o.slug s)) [
      | inl e ↦
          let same : count (has_slug s) orgs ≡ 0 =
            subst (λ t. count (has_slug t) orgs ≡ 0) ((text_eq_iff o.slug s).0 e) free in
          ground (arith, e, same, count-append (has_slug s) orgs (o ∷ []))
      | inr e ↦ ground (arith, e, v.unique s, count-append (has_slug s) orgs (o ∷ []))
    ];
    keyed = Keyed-snoc orgs o v.keyed fresh;
  }

  -- the rows after a change of a row that keeps its id and its slug
  changed-SlugsValid :
      (id : ℕ) (old o : Organization)
      → find (with_id id) orgs ≡ some old
      → o.id ≡ old.id
      → o.slug ≡ old.slug
      → SlugsValid (update_where (with_id o.id) (λ x. o) orgs)
  changed-SlugsValid id old o found same_id same_slug =
      let own : o.id ≡ id =
        same_id ∙ (==_iff old.id id).0 (find_holds (with_id id) orgs old found) in
      let only : All (λ x. with_id o.id x ≡ true → x ≡ old) orgs =
        found_only o.id orgs old v.keyed
          (subst (λ k. find (with_id k) orgs ≡ some old) (sym own) found) in
      record {
        well_formed =
            All-update_where _ _ (with_id o.id) (λ x. o) orgs
              (λ x good. elim (Bool-cases (with_id o.id x)) [
                | inl e ↦ rw (e, same_slug) (All_find _ (with_id id) orgs old v.well_formed found)
                | inr e ↦ rw e good
              ])
              v.well_formed;
        unique = λ s.
            rw
              (count_kept (with_id o.id) (λ x. o) (has_slug s) orgs
                (All-map _ _ orgs
                  (λ x is e. ap (λ t. text_eq t s) (same_slug ∙ ap Organization.slug (sym (is e))))
                  only))
              (v.unique s);
        keyed = Keyed-put o orgs v.keyed;
      }

module _ (p : Platform) where
  -- a request on organizations; the id of a new row is not in use
  pub data Step : Db → Db → Type 0 where
    create :
        (id : ℕ) (user : User) (body : Organizations.OrganizationCreate) (db : Db)
        → count (with_id id) db.organizations ≡ 0
        → Step db (request (Organizations.create_organization p id user body) db).1
    update :
        (id : ℕ) (user : User) (body : Organizations.OrganizationUpdate) (db : Db)
        → Step db (request (Organizations.update_organization p id user body) db).1

  pub data Reach (start : Db) : Db → Type 0 where
    here : Reach start start
    next : {a b : Db} → Reach start a → Step a b → Reach start b

  created_cases :
      (id : ℕ) (user : User) (body : Organizations.OrganizationCreate) (db : Db)
      → let o = Organizations.new_organization p id body in
        let db' = (request (Organizations.create_organization p id user body) db).1 in
        (db'.organizations ≡ db.organizations)
        ⊎ ((Organizations.is_slug o.slug ≡ true)
            × (find (has_slug o.slug) db.organizations ≡ none)
            × (db'.organizations ≡ db.organizations ++ o ∷ []))
  unfolding request Organizations.create_organization get_superadmin_user
  created_cases id user body db =
      let o = Organizations.new_organization p id body in
      elim (Bool-cases (is_superadmin user)) [
        | inr e ↦ inl (ground (arith, e))
        | inl e ↦ elim (Bool-cases (Organizations.is_slug o.slug)) [
          | inr f ↦ inl (ground (arith, e, f))
          | inl f ↦ elim (Option-cases (find (has_slug o.slug) db.organizations)) [
            | inr (x, g) ↦ inl (ground (arith, e, f, g))
            | inl g ↦ inr (f, g, ground (arith, e, f, g))
          ]
        ]
      ]

  updated_cases :
      (id : ℕ) (user : User) (body : Organizations.OrganizationUpdate) (db : Db)
      → let db' = (request (Organizations.update_organization p id user body) db).1 in
        (db'.organizations ≡ db.organizations)
        ⊎ ((old : Organization) × (find (with_id id) db.organizations ≡ some old)
            × (db'.organizations
                ≡ update_where
                    (with_id old.id)
                    (λ x. Organizations.changed_organization p body old)
                    db.organizations))
  unfolding request Organizations.update_organization get_superadmin_user
      Organizations.changed_organization
  updated_cases id user body db = elim (Bool-cases (is_superadmin user)) [
    | inr e ↦ inl (ground (arith, e))
    | inl e ↦ elim (Option-cases (find (with_id id) db.organizations)) [
      | inl f ↦ inl (ground (arith, e, f))
      | inr (old, f) ↦ inr (old, f, ground (arith, e, f))
    ]
  ]

  step-SlugsValid : {a b : Db} → Step a b → SlugsValid a.organizations → SlugsValid b.organizations
  unfolding Organizations.changed_organization
  step-SlugsValid (create id user body db fresh) v = elim (created_cases id user body db) [
    | inl same ↦ subst SlugsValid (sym same) v
    | inr (good, free, added) ↦
        let o = Organizations.new_organization p id body in
        subst SlugsValid (sym added) (
          added-SlugsValid db.organizations v o good
            (count-none (has_slug o.slug) db.organizations free) fresh)
  ]
  step-SlugsValid (update id user body db) v = elim (updated_cases id user body db) [
    | inl same ↦ subst SlugsValid (sym same) v
    | inr (old, found, changed) ↦ subst SlugsValid (sym changed) (
        changed-SlugsValid db.organizations v id old (Organizations.changed_organization p body old)
          found refl refl)
  ]

  -- Whatever creations and updates of organizations are requested, in whatever order and by whom:
  -- where new ids are not in use, every slug stays well formed, and no two organizations share a
  -- slug or an id.
  pub reach-SlugsValid :
      {a b : Db} → Reach a b → SlugsValid a.organizations → SlugsValid b.organizations
  reach-SlugsValid here v = v
  reach-SlugsValid (next r st) v = step-SlugsValid st (reach-SlugsValid r v)
