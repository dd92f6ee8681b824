-- ===== src/Tests/Structure.antt =====
-- Witnesses for the theorems on departments and accounts.
use attendance_tracker.Prelude.{
  find, ◌==◌, ◌↔◌, ◌≡◌, refl, none, some, true, false, [], ◌∷◌, codes, arith, text_eq,
}
use attendance_tracker.Database.Rows.{Db, Embedding, Department, member}
use attendance_tracker.Database.Session.{request, ok}
use attendance_tracker.Passwords
use attendance_tracker.Departments
use attendance_tracker.Departments.Hierarchy.{TwoLevels, created, create_department-TwoLevels}
use attendance_tracker.Users.Create.{UserCreate, create_user}
use attendance_tracker.Users.Create.Cases.{CreateOutcome}
use attendance_tracker.Users.Update.{UserUpdate, update_user}
use attendance_tracker.Users.Update.Index.{UpdateOutcome, update_user_cases, update_user_accepts}
use attendance_tracker.Users.Import
use attendance_tracker.Users.Import.Limit.{MayImport, ImportOutcome}
use attendance_tracker.Users.Exactly.{
  Returned, MayCreate, create_user_exactly, bulk_import_users_exactly,
}
use attendance_tracker.Tests.{acme, bob, demo, settings, draws_at, ann, tables}

abbrev sales : Department
sales = record { id = 20; organization_id = 1; name = codes "Sales"; parent_id = none }

abbrev support : Department
support = record { id = 21; organization_id = 1; name = codes "Support"; parent_id = none }

abbrev halls : Db
halls = record tables { departments = sales ∷ support ∷ [] }

abbrev team : Departments.DepartmentCreate
team = record { name = codes "Team"; parent_id = some 20 }

halls_two : TwoLevels halls
halls_two = record { root = λ id x found pid given. absurd (ground (arith, found, given)) }

create_department-TwoLevels_example : TwoLevels (created demo 50 ann team halls).1
create_department-TwoLevels_example =
    create_department-TwoLevels demo 50 ann team halls (refl, (refl, tt)) halls_two

-- a third account, invited by mail
abbrev carl : UserCreate
carl = record {
  name = codes "Carl";
  external_id = some (codes "E3");
  email = some (codes "carl@acme.com");
  phone = none;
  department_id = some 20;
  role = member;
  password = some (codes "Secret12");
  send_invite_email = true;
}

abbrev bob_face : Embedding
bob_face = record { user_id = 11; vector = []; num_samples = 3; version = 1 }

abbrev faces : Db
faces = record tables { embeddings = bob_face ∷ [] }

abbrev deactivation : UserUpdate
deactivation = record {
  name = none;
  external_id = none;
  email = none;
  phone = none;
  department_id = none;
  role = none;
  is_active = some false;
}

update_user_cases_example :
    UpdateOutcome ann 11 faces (request (update_user demo ann 11 deactivation) faces)
update_user_cases_example = update_user_cases demo ann 11 deactivation faces

abbrev named : Import.BulkImportItem
named = record {
  name = codes "Dora";
  external_id = none;
  email = some (codes "d@acme.com");
  phone = none;
}

-- Two rows for one place.
abbrev batch : Import.BulkImportRequest
batch = record { department_id = none; role = member; users = named ∷ named ∷ [] }

create_user_exactly_example :
    let out = request (create_user demo settings (draws_at 100) ann carl) halls in
    CreateOutcome demo (draws_at 100) ann carl halls out
    × (Returned out.0 ↔ MayCreate demo ann carl halls)
create_user_exactly_example = create_user_exactly demo settings (draws_at 100) ann carl halls

may_create : MayCreate demo ann carl halls
unfolding Passwords.validate_password_strength text_eq
may_create = (
  (λ e. absurd (ground (arith, e)), λ r e. ground (arith, e)),
  (acme, refl, omega arith),
  λ k e. ground (arith, e),
  (λ x e. ground (arith, e), λ x e. ground (arith, e)),
  (refl, omega arith),
)

bulk_import_users_exactly_example :
    let out = request (Import.bulk_import_users demo (λ i. i) ann batch) tables in
    ImportOutcome ann batch tables out × (Returned out.0 ↔ MayImport ann batch tables)
bulk_import_users_exactly_example = bulk_import_users_exactly demo (λ i. i) ann batch tables

may_import : MayImport ann batch tables
may_import = (
  λ e. absurd (ground (arith, e)),
  λ r e. ground (arith, e),
  (acme, refl),
  λ k e. absurd (ground (arith, e)),
)

update_user_accepts_example :
    let out = request (update_user demo ann 11 deactivation) faces in
    (out.0 ≡ ok (record bob { is_active = false }))
    × (find (λ x. x.id == 11) out.1.users ≡ some (record bob { is_active = false }))
update_user_accepts_example =
    update_user_accepts demo ann 11 deactivation faces bob (refl, λ e. absurd (ground (arith, e)))
      refl refl refl refl
