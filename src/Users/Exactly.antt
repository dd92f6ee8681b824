-- ===== src/Users/Exactly.antt =====
-- The requests on accounts that succeed, and what each leaves.
use attendance_tracker.Prelude.{ℕ, ◌≡◌, ◌↔◌, arith}
use attendance_tracker.Database.Rows.{Db, User}
use attendance_tracker.Database.Session.{request, Result, ok, err}
use attendance_tracker.Database.Refuse.{Answer}
use attendance_tracker.Platform.{Platform, Draws, Settings}
use attendance_tracker.Users.Create
use attendance_tracker.Users.Create.Cases.{
  MayGive, HasRoom, InOrg, AreFree, IsGood, CreateOutcome, create_user_cases,
}
use attendance_tracker.Users.Import
use attendance_tracker.Users.Import.Limit.{MayImport, ImportOutcome, bulk_import_users_cases}
use attendance_tracker.Users.Accepts.{create_user_accepts, bulk_import_users_accepts}

-- an answer that is no refusal
abbrev pub Returned : {A : Type 0} → Result A → Type 0
Returned {A} r = (a : A) × (r ≡ ok a)

-- what a new account needs
abbrev pub MayCreate : Platform → User → Create.UserCreate → Db → Type 0
MayCreate p user body db =
    MayGive user body
    × HasRoom user db
    × InOrg user body.department_id db
    × AreFree p user body db
    × IsGood p body.password

module _ (p : Platform) (st : Settings) (d : Draws) (user : User) (body : Create.UserCreate)
    (db : Db) where
  create_needs :
      (out : Answer User)
      → CreateOutcome p d user body db out
      → Returned out.0
      → MayCreate p user body db
  create_needs (err f, db', es) h (a, e) = absurd (ground (arith, e))
  create_needs (ok new, db', es) (may, room, own, free, good, at, added) r =
      (may, room, own, free, good)

  pub create_user_exactly :
      CreateOutcome p d user body db (request (Create.create_user p st d user body) db)
      × (Returned (request (Create.create_user p st d user body) db).0 ↔ MayCreate p user body db)
  create_user_exactly = (
    create_user_cases p st d user body db,
    (
      create_needs (request (Create.create_user p st d user body) db)
          (create_user_cases p st d user body db),
      λ (may, room, own, free, good).
          (_, create_user_accepts p st d user body db may room free own good),
    ),
  )

module _ (p : Platform) (ids : ℕ → ℕ) (user : User) (data_ : Import.BulkImportRequest)
    (db : Db) where
  import_needs :
      (out : Answer Import.BulkImportResponse)
      → ImportOutcome user data_ db out
      → Returned out.0
      → MayImport user data_ db
  import_needs (err f, db', es) h (a, e) = absurd (ground (arith, e))
  import_needs (ok r, db', es) (answered, added, others, within, may) e = may

  pub bulk_import_users_exactly :
      ImportOutcome user data_ db (request (Import.bulk_import_users p ids user data_) db)
      × (Returned (request (Import.bulk_import_users p ids user data_) db).0
          ↔ MayImport user data_ db)
  bulk_import_users_exactly = (
    bulk_import_users_cases p ids user data_ db,
    (
      import_needs (request (Import.bulk_import_users p ids user data_) db)
          (bulk_import_users_cases p ids user data_ db),
      λ (grant, other, (org, e), own).
          (_, bulk_import_users_accepts p ids user data_ db org grant other e own),
    ),
  )
