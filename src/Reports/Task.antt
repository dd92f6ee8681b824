-- ===== src/Reports/Task.antt =====
-- src/workers/tasks/export_tasks.py: the rows of a large export. Dates are parsed by the caller
-- here, and writing the file, the upload and the address for its download are left out.
use attendance_tracker.Prelude.{
  ℕ, ◌+◌, Text, Option, none, some, Bool, true, false, ◌&&◌, List, [], ◌∷◌, map, leb, ltb, take,
  length, if◌then◌else◌, select_where, All,
}
use attendance_tracker.Database.Rows.{Db}
use attendance_tracker.Platform.{days}
use attendance_tracker.Export.{sanitize_cell}
use attendance_tracker.Export.Safety.{sanitize_cell-IsSafe}
use attendance_tracker.Reports.{
  Joined, joined, in_organization, get_name, department_of, external_id_of,
}
use attendance_tracker.Reports.Sheet.{ExportRow}
use attendance_tracker.Reports.Exported.{IsSafeRow}
use attendance_tracker.Dashboard.{shown_name}

abbrev pub export_hard_limit_rows : ℕ
export_hard_limit_rows = 500000

-- the conditions of `_fetch_rows`
unfoldable pub is_fetched : ℕ → ℕ → ℕ → Joined → Bool
is_fetched organization_id date_from date_to r =
    in_organization organization_id r
    && leb (days date_from) r.0.timestamp
    && ltb r.0.timestamp (days (date_to + 1))

-- the name of the department of the row's user, by an outer join
abbrev pub department_cell : Db → Joined → Option Text
department_cell db r = elim (department_of r.1) [
  | none ↦ some []
  | some id ↦ elim (get_name db.departments id) [ none ↦ some [] | some s ↦ some s ]
]

-- one row of `_build_dataframe`
unfoldable pub task_row : Db → Joined → ExportRow
unfolding sanitize_cell
task_row db r = record {
  user = sanitize_cell (some (shown_name r.1));
  external_id = sanitize_cell (external_id_of r.1);
  department = sanitize_cell (department_cell db r);
  timestamp = r.0.timestamp;
  method = r.0.method;
  device = sanitize_cell r.0.device_id;
  is_spoof = r.0.is_spoof;
}

module _ (newest_first : List Joined → List Joined) where
  -- `newest_first` is the order of this query, which need not be that of the route's
  unfoldable pub fetch_rows : ℕ → ℕ → ℕ → Db → List Joined
  unfolding is_fetched
  fetch_rows organization_id date_from date_to db =
      take (export_hard_limit_rows + 1)
        (newest_first (select_where (is_fetched organization_id date_from date_to) (joined db)))

  -- `generate_export_task`; none is an answer without success. `is_available` is of the storage.
  unfoldable pub generate_export_task : Bool → ℕ → ℕ → ℕ → Db → Option (List ExportRow)
  unfolding fetch_rows task_row
  generate_export_task false organization_id date_from date_to db = none
  generate_export_task true organization_id date_from date_to db =
      let rows = fetch_rows organization_id date_from date_to db in
      if ltb export_hard_limit_rows (length rows) then none else some (map (task_row db) rows)

map-task_row-IsSafe : (db : Db) (rows : List Joined) → All IsSafeRow (map (task_row db) rows)
unfolding task_row
map-task_row-IsSafe db [] = tt
map-task_row-IsSafe db (r ∷ rows) = (
  (
    sanitize_cell-IsSafe (some (shown_name r.1)),
    sanitize_cell-IsSafe (external_id_of r.1),
    sanitize_cell-IsSafe (department_cell db r),
    sanitize_cell-IsSafe r.0.device_id,
  ),
  map-task_row-IsSafe db rows,
)
