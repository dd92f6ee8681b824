-- ===== src/Departments/Deletion.antt =====
-- What the deletion of a department leaves.
use attendance_tracker.Prelude.{
  ℕ, ◌≡◌, ◌⊎◌, refl, none, some, false, List, [], subst, sym, ◌<◌, arith, ◌==◌, ⊤, All,
  All-of_count, All-delete, All-update_where, count, Option-cases, holds, inl, inr, delete_where,
}
use attendance_tracker.Database.Rows.{Db, User, Department}
use attendance_tracker.Database.Session.{Result, Effect, ok, err, http, request}
use attendance_tracker.Audit.{entry, add_entry}
use attendance_tracker.Departments
use native.Mathlib.Decide.{dec_lt}

-- No department has the id or is below it, and no user is in it.
abbrev pub IsGone : ℕ → Db → Type 0
IsGone id db =
    All (λ (x : Department). ((x.id == id) ≡ false) × (holds x.parent_id id ≡ false)) db.departments
    × All (λ (u : User). holds u.department_id id ≡ false) db.users

abbrev pub DeleteOutcome : User → ℕ → Db → Result ⊤ × Db × List Effect → Type 0
DeleteOutcome user id db (err f, db', es) =
    (db' ≡ db)
    × ((Departments.scoped_department id user.organization_id db ≡ none)
        ⊎ (0 < count (λ (u : User). holds u.department_id id) db.users))
DeleteOutcome user id db (ok done, db', es) = IsGone id db' × (db'.users ≡ db.users)

IsGone-drop :
    (id : ℕ) (db : Db)
    → All
        (λ (x : Department). ((x.id == id) ≡ false) × (holds x.parent_id id ≡ false))
        (Departments.drop_department id db).departments
IsGone-drop id db =
    All-update_where (λ x. (x.id == id) ≡ false) _ (λ x. holds x.parent_id id) Departments.orphan
      (delete_where (λ x. x.id == id) db.departments) (λ x h. ground arith)
      (All-delete (λ x. x.id == id) db.departments)

module _ (user : User) (id : ℕ) (db : Db) where
  deleted : Result ⊤ × Db × List Effect
  deleted = request (Departments.delete_department user id) db

  delete_missing :
      Departments.scoped_department id user.organization_id db ≡ none
      → deleted ≡ (err Departments.department_not_found, db, [])
  unfolding Departments.delete_department request deleted
  delete_missing e = ground (arith, e)

  delete_used :
      (x : Department)
      → Departments.scoped_department id user.organization_id db ≡ some x
      → 0 < count (λ (u : User). holds u.department_id id) db.users
      → deleted ≡ (err (http 409 "Department still has users; reassign them first"), db, [])
  unfolding Departments.delete_department request deleted
  delete_used x e used = ground (arith, e, used)

  delete_free :
      (x : Department)
      → Departments.scoped_department id user.organization_id db ≡ some x
      → count (λ (u : User). holds u.department_id id) db.users ≡ 0
      → deleted ≡ (
        ok tt,
        add_entry
            (entry "department.deleted"
              (some user.organization_id)
              (some user.id)
              (some id)
              []
              none)
            (Departments.drop_department id db),
        [],
      )
  unfolding Departments.delete_department request deleted
  delete_free x e free = ground (arith, e, free)

  -- A deletion is refused only where the requester's organization has no such department or users
  -- are in it, and then changes nothing. After one that succeeds no department has the id
  -- or names it as parent, no user belongs to it, and no user was changed.
  pub delete_department_cases :
      DeleteOutcome user id db (request (Departments.delete_department user id) db)
  unfolding deleted
  delete_department_cases =
      elim (Option-cases (Departments.scoped_department id user.organization_id db)) [
        | inl e ↦ subst (DeleteOutcome user id db) (sym (delete_missing e)) (refl, inl e)
        | inr (x, e) ↦ elim (dec_lt 0 (count (λ (u : User). holds u.department_id id) db.users)) [
          | yes used ↦
              subst (DeleteOutcome user id db) (sym (delete_used x e used)) (refl, inr used)
          | no free ↦
              let unused : count (λ (u : User). holds u.department_id id) db.users ≡ 0 =
                omega arith in
              subst (DeleteOutcome user id db) (sym (delete_free x e unused)) (
                (IsGone-drop id db, All-of_count (λ u. holds u.department_id id) db.users unused),
                refl,
              )
        ]
      ]
