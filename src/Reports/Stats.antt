-- ===== src/Reports/Stats.antt =====
-- `get_attendance_stats` of src/api/routes/attendance.py.
use attendance_tracker.Prelude.{
  ℕ, ◌+◌, ◌-◌, Text, Option, none, some, Bool, not, ◌&&◌, List, [], ◌∷◌, map, ltb, leb, ◌==◌,
  if◌then◌else◌, any, find, count, select_where, min, text_eq,
}
use attendance_tracker.Database.Rows.{Db, User, Attendance, Department, Method}
use attendance_tracker.Database.Session.{Handler, gets}
use attendance_tracker.Platform.{days}
use attendance_tracker.Reports.{today, join, method_eq, department_of}

-- `func.count(func.distinct(column))`
unfoldable pub distinct : List ℕ → ℕ
distinct [] = 0
distinct (x ∷ xs) = (if any (λ y. y == x) xs then 0 else 1) + distinct xs

module _ {K : Type 0} (eq : K → K → Bool) where
  -- one more row of the group `k`
  unfoldable pub bump : K → List (K × ℕ) → List (K × ℕ)
  bump k [] = (k, 1) ∷ []
  bump k ((j, n) ∷ groups) =
      let rest = bump k groups in if eq j k then (j, n + 1) ∷ groups else (j, n) ∷ rest

  -- `select(column, func.count(...)).group_by(column)`
  unfoldable pub group_count : List K → List (K × ℕ)
  unfolding bump
  group_count [] = []
  group_count (k ∷ ks) = bump k (group_count ks)

pub record AttendanceStatsResponse : Type 0 where
  pub date : ℕ
  pub total_records : ℕ
  pub unique_users : ℕ
  pub present_users : ℕ
  pub absent_users : ℕ
  pub by_department : List (Text × ℕ)
  pub by_method : List (Method × ℕ)
  pub spoof_attempts : ℕ

-- `date_from or date.today()`, and the same for the last day, which is cut to today
abbrev pub first_day : ℕ → Option ℕ → ℕ
first_day now none = today now
first_day now (some d) = d

abbrev pub last_day : ℕ → Option ℕ → ℕ
last_day now d = min (first_day now d) (today now)

-- `scope`: the rows of an organization on the days from `a` to `b`
abbrev pub in_scope : ℕ → ℕ → ℕ → Attendance → Bool
in_scope organization_id a b row =
    row.organization_id == organization_id
    && leb (days a) row.timestamp
    && ltb row.timestamp (days (b + 1))

abbrev pub genuine : (Attendance → Bool) → Attendance → Bool
genuine q row = q row && not row.is_spoof

abbrev department_by_id : Option ℕ → Db → Option Department
department_by_id none db = none
department_by_id (some id) db = find (λ d. d.id == id) db.departments

-- the name of the department of the row's user, by two inner joins
abbrev pub department_name : Db → Attendance → Option Text
department_name db row = elim (department_by_id (department_of (join db row).1) db) [
  | none ↦ none
  | some d ↦ some d.name
]

unfoldable pub names : Db → List Attendance → List Text
names db [] = []
names db (row ∷ rows) = elim (department_name db row) [
  | none ↦ names db rows
  | some name ↦ name ∷ names db rows
]

abbrev pub user_ids : List Attendance → List ℕ
user_ids rows = map Attendance.user_id rows

-- whether a user of the organization may sign in
abbrev pub is_active_member : ℕ → User → Bool
is_active_member organization_id u = u.organization_id == organization_id && u.is_active

-- what the aggregate queries answer for a scope
abbrev pub aggregate : ℕ → ℕ → (Attendance → Bool) → Db → AttendanceStatsResponse
aggregate organization_id date_to scope db =
    let present_unique = distinct (user_ids (select_where (genuine scope) db.attendance)) in
    record {
      date = date_to;
      total_records = count scope db.attendance;
      unique_users = distinct (user_ids (select_where scope db.attendance));
      present_users = present_unique;
      absent_users = count (is_active_member organization_id) db.users - present_unique;
      by_department = group_count text_eq (names db (select_where (genuine scope) db.attendance));
      by_method =
          group_count method_eq
            (map Attendance.method (select_where (genuine scope) db.attendance));
      spoof_attempts = count (λ row. scope row && row.is_spoof) db.attendance;
    }

unfoldable pub get_attendance_stats :
    ℕ → Option ℕ → Option ℕ → User → Handler AttendanceStatsResponse
unfolding distinct group_count names
get_attendance_stats now date_from date_to current_user = gets (
    aggregate current_user.organization_id (last_day now date_to)
      (in_scope current_user.organization_id (first_day now date_from) (last_day now date_to)))
