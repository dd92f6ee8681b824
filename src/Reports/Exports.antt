-- ===== src/Reports/Exports.antt =====
-- The export of the route and that of the worker.
use attendance_tracker.Prelude.{
  ℕ, ◌+◌, ◌≤◌, ◌≡◌, refl, sym, ap, ◌∙◌, Text, Option, none, some, Bool, true, false, List, [], ◌∷◌,
  map, length, take, if◌then◌else◌, ltb, ◌==◌, ==_iff, holds, any, find, select_where, All, All-map,
  Bool-cases, inl, inr, arith,
}
use attendance_tracker.Database.Rows.{Db, User, Department}
use attendance_tracker.Database.Session.{ok}
use attendance_tracker.Export.{sanitize_cell}
use attendance_tracker.Dashboard.{shown_name}
use attendance_tracker.Reports
use attendance_tracker.Reports.{Joined, department_of, name_of}
use attendance_tracker.Reports.Paging.{take_all}
use attendance_tracker.Reports.Order.{Orders}
use attendance_tracker.Reports.Ties.{IsUntied, same_answer}
use attendance_tracker.Reports.Sheet
use attendance_tracker.Reports.Sheet.{AttendanceExportRequest, ExportRow}
use attendance_tracker.Reports.Exported.{answered, named, MayExport, export_answer}
use attendance_tracker.Reports.Task

find-select_where :
    {A : Type 0} (p q : A → Bool) (xs : List A)
    → ((x : A) → p x ≡ true → q x ≡ true)
    → find p (select_where q xs) ≡ find p xs
find-select_where p q [] h = refl
find-select_where p q (x ∷ xs) h = elim (Bool-cases (p x)) [
  | inl e ↦ ground (arith, e, h x e)
  | inr e ↦ ground (arith, e, find-select_where p q xs h)
]

map_same :
    {A B : Type 0} (f g : A → B) (xs : List A) → All (λ x. f x ≡ g x) xs → map f xs ≡ map g xs
map_same f g [] h = refl
map_same f g (x ∷ xs) (e, h) = ground (arith, e, map_same f g xs h)

-- the department of a user is one of those of the rows
IsAmong : List Joined → Joined → Type 0
IsAmong rows r =
    (k : ℕ)
    → holds (department_of r.1) k ≡ true
    → any (λ x. holds (department_of x.1) k) rows ≡ true

All-IsAmong : (rows : List Joined) → All (IsAmong rows) rows
unfolding IsAmong
All-IsAmong [] = tt
All-IsAmong (r ∷ rows) = (
  λ k h. ground (arith, h),
  All-map (IsAmong rows) (IsAmong (r ∷ rows)) rows (λ x h k e. ground (arith, h k e))
      (All-IsAmong rows),
)

-- a row whose user, if there is one, has a name that is not empty
abbrev pub HasName : Joined → Type 0
HasName r = shown_name r.1 ≡ name_of r.1

module _ (rows : List Joined) (db : Db) where
  same_name :
      (id : ℕ)
      → any (λ x. holds (department_of x.1) id) rows ≡ true
      → Reports.get_name (Sheet.departments_of rows db) id ≡ Reports.get_name db.departments id
  unfolding Sheet.departments_of
  same_name id h =
      let kept =
        find-select_where (λ (d : Department). d.id == id) _ db.departments
          (λ d e.
            ap (λ k. any (λ (x : Joined). holds (department_of x.1) k) rows) ((==_iff d.id id).0 e)
            ∙ h) in
      ground (arith, kept)

  same_cell :
      (r : Joined) (d : Option ℕ)
      → department_of r.1 ≡ d
      → IsAmong rows r
      → Sheet.name_or_empty (Sheet.departments_of rows db) d ≡ Task.department_cell db r
  unfolding IsAmong
  same_cell r none e h = ground (arith, e)
  same_cell r (some id) e h = ground (arith, e, same_name id (h id (ground (arith, e))))

  same_row :
      (r : Joined)
      → HasName r
      → IsAmong rows r
      → Sheet.export_row (Sheet.departments_of rows db) r ≡ Task.task_row db r
  unfolding Sheet.export_row Task.task_row
  same_row r name among = ground (
    arith,
    ap (λ s. sanitize_cell (some s)) name,
    ap sanitize_cell (same_cell r (department_of r.1) refl among),
  )

  same_rows :
      (xs : List Joined)
      → All HasName xs
      → All (IsAmong rows) xs
      → map (Sheet.export_row (Sheet.departments_of rows db)) xs ≡ map (Task.task_row db) xs
  same_rows [] h k = refl
  same_rows (r ∷ xs) h k = ground (arith, same_row r h.0 k.0, same_rows xs h.1 k.1)

is_fetched_lem :
    (user : User) (body : AttendanceExportRequest)
    → body.department_id ≡ none
    → Task.is_fetched user.organization_id body.date_from body.date_to ≡ Sheet.is_exported user body
unfolding Task.is_fetched Sheet.is_exported
is_fetched_lem user body whole = λ i r. same r i
  where
    same :
        (r : Joined)
        → Task.is_fetched user.organization_id body.date_from body.date_to r
          ≡ Sheet.is_exported user body r
    same (a, u) = ground (arith, whole)

below_limit : (n : ℕ) → n ≤ 50000 → ltb Task.export_hard_limit_rows n ≡ false
below_limit n h = ground (arith, h)

-- `worker_order` is the order of the worker's query, which may be another one where rows have one
-- timestamp
module _ (newest_first worker_order : List Joined → List Joined) (day_text : ℕ → Text)
    (body : AttendanceExportRequest) (user : User) (db : Db) where
  fetched :
      body.department_id ≡ none
      → length (newest_first (named newest_first day_text body user db)) ≤ 50000
      → worker_order (named newest_first day_text body user db)
        ≡ newest_first (named newest_first day_text body user db)
      → Task.fetch_rows worker_order user.organization_id body.date_from body.date_to db
        ≡ newest_first (named newest_first day_text body user db)
  unfolding Task.fetch_rows
  fetched whole few agree =
      ap
        (λ q.
          take (Task.export_hard_limit_rows + 1)
            (worker_order (select_where q (Reports.joined db))))
        (is_fetched_lem user body whole)
      ∙ ap (take (Task.export_hard_limit_rows + 1)) agree
      ∙ take_all (Task.export_hard_limit_rows + 1)
          (newest_first (named newest_first day_text body user db)) (omega (arith, few))

  task_answer :
      (rows : List Joined)
      → Task.fetch_rows worker_order user.organization_id body.date_from body.date_to db ≡ rows
      → length rows ≤ 50000
      → Task.generate_export_task worker_order true user.organization_id body.date_from body.date_to
          db
        ≡ some (map (Task.task_row db) rows)
  unfolding Task.generate_export_task
  task_answer rows e few =
      rw e
        (few_enough (ltb Task.export_hard_limit_rows (length rows)) (below_limit (length rows) few))
    where
      few_enough :
          (b : Bool)
          → b ≡ false
          → (if b then none else some (map (Task.task_row db) rows))
            ≡ some (map (Task.task_row db) rows)
      few_enough b h = ground (arith, h)

  -- An export that the route serves, of all departments, of rows whose users have names and of
  -- which no two have one timestamp, is the one that the worker makes for the same organization and
  -- days where the storage is available, if both queries order by descending timestamp: the same
  -- rows in the same order, with the same cells. (Each query may order ties in its own way.)
  pub export_attendance-generate_export_task :
      MayExport newest_first day_text body user db
      → body.department_id ≡ none
      → All HasName (newest_first (named newest_first day_text body user db))
      → Orders newest_first
      → Orders worker_order
      → IsUntied (named newest_first day_text body user db)
      → (sheet : List ExportRow) × ((answered newest_first day_text body user db).0 ≡ ok sheet)
        × (Task.generate_export_task worker_order true user.organization_id body.date_from
              body.date_to db
            ≡ some sheet)
  export_attendance-generate_export_task may whole names first second untied =
      let rows = newest_first (named newest_first day_text body user db) in
      let few = may.2 in
      (
        map (Sheet.export_row (Sheet.departments_of rows db)) rows,
        export_answer newest_first day_text body user db may,
        task_answer rows
              (fetched whole few (
                same_answer worker_order newest_first (named newest_first day_text body user db)
                  second first untied))
              few
            ∙ ap some (sym (same_rows rows db rows names (All-IsAmong rows))),
      )
