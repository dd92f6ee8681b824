-- ===== src/Departments.antt =====
-- src/api/routes/departments.py: the departments of an organization, a parent above each at most.
-- The count of users in an answer is left out; `new_id` is the UUID that the row gets.
pub mod Hierarchy
pub mod Deletion
use attendance_tracker.Prelude.{
  ℕ, String, Text, Option, none, some, Bool, true, false, not, ◌&&◌, List, [], ◌∷◌, ◌++◌, ⊤, ltb,
  ◌==◌, if◌then◌else◌, is_some, holds, find, count, update_where, delete_where, text_eq,
}
use attendance_tracker.Database.Rows.{Db, User, Department, Value, text}
use attendance_tracker.Database.Session.{
  Failure, http, Handler, pure, raise, gets, or_raise, raise_if, modify, commit, ◌>>=◌, ◌>>◌,
}
use attendance_tracker.Platform.{Platform}
use attendance_tracker.Audit.{entry, record_audit}

-- `_scoped_department`
abbrev pub scoped_department : ℕ → ℕ → Db → Option Department
scoped_department id organization_id db =
    find (λ x. x.id == id && x.organization_id == organization_id) db.departments

abbrev pub named : ℕ → Text → Department → Bool
named organization_id name x = x.organization_id == organization_id && text_eq x.name name

abbrev pub department_not_found : Failure
department_not_found = http 404 "Department not found"

abbrev pub name_taken : Failure
name_taken = http 409 "Department name already exists"

abbrev pub parent_not_found : Failure
parent_not_found = http 404 "Parent department not found"

pub record DepartmentCreate : Type 0 where
  pub name : Text
  pub parent_id : Option ℕ

-- the tests on `data.parent_id` of `create_department`
unfoldable pub check_new_parent : ℕ → Option ℕ → Handler ⊤
check_new_parent organization_id none = pure tt
check_new_parent organization_id (some id) = do
  parent ← or_raise (← gets (scoped_department id organization_id)) parent_not_found
  raise_if (is_some parent.parent_id) (http 400 "Department hierarchy limited to two levels")

abbrev pub add_department : Department → Db → Db
add_department x db = record db { departments = db.departments ++ x ∷ [] }

abbrev pub new_department : Platform → ℕ → User → DepartmentCreate → Department
new_department p new_id current_user body = record {
  id = new_id;
  organization_id = current_user.organization_id;
  name = p.strip body.name;
  parent_id = body.parent_id;
}

unfoldable pub create_department : Platform → ℕ → User → DepartmentCreate → Handler Department
unfolding check_new_parent text_eq
create_department p new_id current_user body = do
  existing ← gets λ db. find (named current_user.organization_id (p.strip body.name)) db.departments
  raise_if (is_some existing) name_taken
  check_new_parent current_user.organization_id body.parent_id
  modify (add_department (new_department p new_id current_user body))
  commit
  record_audit (
      entry "department.created" (some current_user.organization_id) (some current_user.id)
        (some new_id) (("name", text (p.strip body.name)) ∷ []) none)
  pure (new_department p new_id current_user body)

pub record DepartmentUpdate : Type 0 where
  pub name : Option Text
  pub parent_id : Option ℕ

-- `if data.name is not None`: the department object under its new name
unfoldable pub rename : Platform → ℕ → Option Text → Department → Handler Department
unfolding text_eq
rename p organization_id none dept = pure dept
rename p organization_id (some name) dept = do
  conflict ← gets λ db.
      find (λ x. named organization_id (p.strip name) x && not (x.id == dept.id)) db.departments
  raise_if (is_some conflict) name_taken
  pure (record dept { name = p.strip name })

-- `if data.parent_id is not None`, twice
unfoldable pub move : ℕ → Option ℕ → Department → Handler Department
move organization_id none dept = pure dept
move organization_id (some id) dept = do
  raise_if (id == dept.id) (http 400 "Department cannot be its own parent")
  parent ← or_raise (← gets (scoped_department id organization_id)) parent_not_found
  pure (record dept { parent_id = some id })

-- what a commit writes of a changed department object
abbrev pub put_department : Department → Db → Db
put_department dept db = record db {
  departments = update_where (λ x. x.id == dept.id) (λ x. dept) db.departments;
}

unfoldable pub update_department : Platform → User → ℕ → DepartmentUpdate → Handler Department
unfolding rename move
update_department p current_user department_id body = do
  dept ←
      or_raise (← gets (scoped_department department_id current_user.organization_id))
        department_not_found
  renamed ← rename p current_user.organization_id body.name dept
  moved ← move current_user.organization_id body.parent_id renamed
  modify (put_department moved)
  commit
  record_audit (
      entry "department.updated" (some current_user.organization_id) (some current_user.id)
        (some dept.id) [] none)
  pure moved

abbrev pub orphan : Department → Department
orphan x = record x { parent_id = none }

-- `db.delete(dept)`; the foreign key sets the parent of its children to NULL
abbrev pub drop_department : ℕ → Db → Db
drop_department id db = record db {
  departments =
      update_where (λ x. holds x.parent_id id) orphan
        (delete_where (λ x. x.id == id) db.departments);
}

unfoldable pub delete_department : User → ℕ → Handler ⊤
delete_department current_user department_id = do
  dept ←
      or_raise (← gets (scoped_department department_id current_user.organization_id))
        department_not_found
  in_use ← gets (λ db. count (λ (u : User). holds u.department_id department_id) db.users)
  raise_if (ltb 0 in_use) (http 409 "Department still has users; reassign them first")
  modify (drop_department department_id)
  commit
  record_audit (
      entry "department.deleted" (some current_user.organization_id) (some current_user.id)
        (some department_id) [] none)
