-- ===== src/Users/Import/Limit.antt =====
-- What a bulk import adds, and how far it may go.
use attendance_tracker.Prelude.{
  ℕ, ◌+◌, ◌-◌, ◌≤◌, ◌≡◌, refl, none, some, false, List, [], ◌∷◌, ◌==◌, inl, inr, length, count,
  arith, Option-cases, count-append, length-snoc, subst, ◌≢◌,
}
use attendance_tracker.Database.Rows.{Db, num, User, Organization, superadmin, org_admin}
use attendance_tracker.Database.Session.{
  request, Result, Effect, ok, err, ◌>>=◌, ◌>>◌, modify, commit, pure, gets, begin,
}
use attendance_tracker.Database.Refuse.{IsCheck, past_check, check_rules}
use attendance_tracker.Platform.{Platform}
use attendance_tracker.Audit.{entry, record_audit}
use attendance_tracker.Users.Create.{org_of, users_of, check_department}
use attendance_tracker.Users.Import
use attendance_tracker.Users.Create.Cases.{IsCheck-check_department, InOrg}

abbrev count_of : ℕ → List User → ℕ
count_of id = count (λ u. u.organization_id == id)

-- what the loop keeps, from the user table `users` and after `n` rows
record Loop (id slots n : ℕ) (users : List User) (s : Import.ImportState) : Type 0 where
  within : s.imported ≤ slots
  added : count_of id s.users ≡ count_of id users + s.imported
  others : (k : ℕ) → (k == id) ≡ false → count_of k s.users ≡ count_of k users
  answered : s.imported + length s.errors ≡ n

module _ (p : Platform) (user : User) (data_ : Import.BulkImportRequest) (ids : ℕ → ℕ)
    (slots : ℕ) where
  row_step :
      (n : ℕ) (item : Import.BulkImportItem) (users : List User) (s : Import.ImportState)
      (index : ℕ)
      → Loop user.organization_id slots n users s
      → Loop user.organization_id slots
          (n + 1)
          users
          (Import.import_row p user data_ ids slots index item s)
  unfolding Import.import_row
  row_step n item users s index h =
      let new = Import.import_user p user data_ (ids index) item in
      record {
        within = ground (arith, h.within);
        added = ground (
          arith,
          h.added,
          count-append (λ (u : User). u.organization_id == user.organization_id) s.users (new ∷ []),
        );
        others = λ k ne. ground (
          arith,
          ne,
          h.others k ne,
          count-append (λ (u : User). u.organization_id == k) s.users (new ∷ []),
        );
        answered = ground (
          arith,
          h.answered,
          length-snoc s.errors (index, Import.limit_reached),
          length-snoc s.errors (index, Import.duplicate_external_id),
          length-snoc s.errors (index, Import.duplicate_email),
          length-snoc s.errors (index, Import.integrity_error),
        );
      }

  rows_step :
      (items : List Import.BulkImportItem) (n : ℕ) (users : List User) (s : Import.ImportState)
      (index : ℕ)
      → Loop user.organization_id slots n users s
      → Loop user.organization_id slots
          (n + length items)
          users
          (Import.import_rows p user data_ ids slots index items s)
  unfolding Import.import_rows
  rows_step [] n users s index h =
      subst (λ k. Loop user.organization_id slots k users s) (omega arith) h
  rows_step (item ∷ items) n users s index h =
      subst
        (λ k.
          Loop user.organization_id slots k users
            (Import.import_rows p user data_ ids slots index (item ∷ items) s))
        (omega arith)
        (rows_step items (n + 1) users (Import.import_row p user data_ ids slots index item s)
          (index + 1) (row_step n item users s index h))

-- what an import needs
abbrev pub MayImport : User → Import.BulkImportRequest → Db → Type 0
MayImport user data_ db =
    (data_.role ≡ superadmin → user.role ≡ superadmin)
    × (user.role ≡ org_admin → data_.role ≢ org_admin)
    × ((org : Organization) × (org_of user.organization_id db ≡ some org))
    × InOrg user data_.department_id db

abbrev pub ImportOutcome :
    User
    → Import.BulkImportRequest
    → Db
    → Result Import.BulkImportResponse × Db × List Effect
    → Type 0
ImportOutcome user data_ db (err f, db', es) = (db' ≡ db) × (es ≡ [])
ImportOutcome user data_ db (ok r, db', es) =
    (r.imported + r.failed ≡ length data_.users)
    × (users_of user.organization_id db' ≡ users_of user.organization_id db + r.imported)
    × ((k : ℕ) → (k == user.organization_id) ≡ false → users_of k db' ≡ users_of k db)
    × ((org : Organization) × (org_of user.organization_id db ≡ some org)
        × (r.imported ≤ org.max_users - users_of user.organization_id db))
    × MayImport user data_ db

module _ (p : Platform) (ids : ℕ → ℕ) (user : User) (data_ : Import.BulkImportRequest)
    (db : Db) where
  imported : Result Import.BulkImportResponse × Db × List Effect
  imported = request (Import.bulk_import_users p ids user data_) db

  rows : ℕ → Import.ImportState
  rows slots = Import.import_rows p user data_ ids slots 0 data_.users (Import.start db)

  all_rows :
      (slots : ℕ) → Loop user.organization_id slots (0 + length data_.users) db.users (rows slots)
  unfolding rows
  all_rows slots =
      rows_step p user data_ ids slots data_.users 0 db.users (Import.start db) 0 (record {
        within = ground arith;
        added = ground arith;
        others = λ k ne. refl;
        answered = refl;
      })

  import_checked : IsCheck (Import.check_import user data_)
  unfolding Import.check_import
  import_checked = search (IsCheck-check_department, check_rules) depth 12

  slots_left :
      (slots : ℕ)
      → (Import.check_import user data_ (begin db)).0 ≡ ok slots
      → (org : Organization) × (org_of user.organization_id db ≡ some org)
        × (slots ≡ org.max_users - users_of user.organization_id db)
  unfolding Import.check_import check_department
  slots_left slots h = elim (Option-cases (org_of user.organization_id db)) [
    | inl e ↦ absurd (ground (arith, e, h))
    | inr (org, e) ↦ (org, e, ground (arith, e, h))
  ]

  import_passed :
      (slots : ℕ)
      → (Import.check_import user data_ (begin db)).0 ≡ ok slots
      → MayImport user data_ db
  unfolding Import.check_import check_department
  import_passed slots h = elim (Option-cases (org_of user.organization_id db)) [
    | inl e ↦ absurd (ground (arith, e, h))
    | inr (org, e) ↦ (
      λ r. ground (arith, e, h, r),
      λ r q. ground (arith, e, h, r, q),
      (org, e),
      λ k f. ground (arith, e, h, f),
    )
  ]

  finished :
      (slots : ℕ)
      → (Import.check_import user data_ (begin db)).0 ≡ ok slots
      → ImportOutcome user data_ db (
          request
            (do
              done ←
                  gets
                    λ db. Import.import_rows p user data_ ids slots 0 data_.users (Import.start db)
              modify (λ db. record db { users = done.users })
              commit
              record_audit (
                  entry "user.bulk_imported"
                    (some user.organization_id)
                    (some user.id)
                    none
                    (("imported", num done.imported) ∷ ("failed", num (length done.errors)) ∷ [])
                    none)
              pure (Import.response done))
            db)
  unfolding request rows
  finished slots passed =
      let h = all_rows slots in
      let (org, e, left) = slots_left slots passed in
      (
        ground (arith, h.answered),
        ground (arith, h.added),
        h.others,
        (org, e, ground (arith, h.within, left)),
        import_passed slots passed,
      )

  -- A refused import changes nothing. One that returns answers each row as imported or as failed,
  -- adds to the requester's organization as many accounts as it reports, to others none, and no
  -- more than the organization had room for.
  pub bulk_import_users_cases :
      ImportOutcome user data_ db (request (Import.bulk_import_users p ids user data_) db)
  unfolding Import.bulk_import_users
  bulk_import_users_cases =
      past_check (ImportOutcome user data_ db) db (Import.check_import user data_) _ import_checked
        (λ f. (refl, refl)) finished
