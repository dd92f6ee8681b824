-- ===== src/Reports/Sheet.antt =====
-- `export_attendance` and `_build_export_dataframe` of src/api/routes/attendance.py: the rows of
-- the sheet. Writing them as CSV or Excel, the file's name and the columns `ID`, `Confidence` and
-- `Metadata` are left out. `day_text` is `str` of a date.
use attendance_tracker.Prelude.{
  ℕ, ◌+◌, String, Text, Option, none, some, Bool, ◌&&◌, List, [], ◌∷◌, map, ltb, leb, holds, any,
  length, select_where,
}
use attendance_tracker.Database.Rows.{Db, User, Method, num, str, texts}
use attendance_tracker.Database.Session.{Failure, http, Handler, pure, gets, raise_if, ◌>>=◌, ◌>>◌}
use attendance_tracker.Platform.{days}
use attendance_tracker.Audit.{entry, record_audit}
use attendance_tracker.Identity.{get_org_admin_user}
use attendance_tracker.Export.{sanitize_cell}
use attendance_tracker.Reports.{
  Joined, joined, in_organization, in_department, if_set, Names, get_name, name_of, external_id_of,
  department_of,
}

pub data ExportFormat : Type 0 where
  csv excel : ExportFormat

pub record AttendanceExportRequest : Type 0 where
  pub date_from : ℕ
  pub date_to : ℕ
  pub format : ExportFormat
  pub department_id : Option ℕ

pub record ExportRow : Type 0 where
  pub user : Text
  pub external_id : Text
  pub department : Text
  pub timestamp : ℕ
  pub method : Method
  pub device : Text
  pub is_spoof : Bool

-- `names.get(id, "")`
abbrev pub name_or_empty : Names → Option ℕ → Option Text
name_or_empty names none = some []
name_or_empty names (some id) = elim (get_name names id) [ none ↦ some [] | some s ↦ some s ]

-- one row of `_build_export_dataframe`
unfoldable pub export_row : Names → Joined → ExportRow
unfolding sanitize_cell
export_row department_names (att, user) = record {
  user = sanitize_cell (some (name_of user));
  external_id = sanitize_cell (external_id_of user);
  department = sanitize_cell (name_or_empty department_names (department_of user));
  timestamp = att.timestamp;
  method = att.method;
  device = sanitize_cell att.device_id;
  is_spoof = att.is_spoof;
}

-- the conditions of the query
unfoldable pub is_exported : User → AttendanceExportRequest → Joined → Bool
is_exported current_user request (att, user) =
    in_organization current_user.organization_id (att, user)
    && leb (days request.date_from) att.timestamp
    && ltb att.timestamp (days (request.date_to + 1))
    && if_set request.department_id (in_department user)

-- the departments of the users of the rows
unfoldable pub departments_of : List Joined → Db → Names
departments_of rows db =
    select_where (λ d. any (λ r. holds (department_of r.1) d.id) rows) db.departments

abbrev pub range_too_long : Failure
range_too_long = http 400 "Range exceeds 366 days; use the asynchronous export job instead"

abbrev pub too_large : Failure
too_large = http 400 "Result too large for synchronous export; use the asynchronous export job"

-- `(date_to - date_from).days + 1 > EXPORT_MAX_DAYS`, without the subtraction
abbrev pub is_too_long : AttendanceExportRequest → Bool
is_too_long request = ltb (request.date_from + 366) (request.date_to + 1)

abbrev pub format_name : ExportFormat → String
format_name csv = "csv"
format_name excel = "excel"

module _ (newest_first : List Joined → List Joined) (day_text : ℕ → Text)
    (request : AttendanceExportRequest) where
  -- the checks and the query; `format` is one of the two by its type
  unfoldable pub read_rows : User → Handler (User × List Joined)
  unfolding is_exported get_org_admin_user
  read_rows requester = do
    current_user ← get_org_admin_user requester
    raise_if (is_too_long request) range_too_long
    rows ← gets λ db. newest_first (select_where (is_exported current_user request) (joined db))
    raise_if (ltb 50000 (length rows)) too_large
    pure (current_user, rows)

  -- the audit entry, and the sheet
  unfoldable pub write_sheet : User × List Joined → Handler (List ExportRow)
  unfolding departments_of export_row
  write_sheet (current_user, rows) = do
    department_names ← gets (departments_of rows)
    record_audit (
        entry "attendance.exported" (some current_user.organization_id) (some current_user.id) none
          (("format", str (format_name request.format))
            ∷ ("rows", num (length rows))
            ∷ ("range", texts (day_text request.date_from ∷ day_text request.date_to ∷ []))
            ∷ [])
          none)
    pure (map (export_row department_names) rows)

  unfoldable pub export_attendance : User → Handler (List ExportRow)
  unfolding read_rows write_sheet
  export_attendance requester = do found ← read_rows requester; write_sheet found
