-- ===== src/Dashboard.antt =====
-- The summary, the charts and the feed of src/api/routes/dashboard.py; its settings routes stand
-- in OrgSettings. `func.date` and `extract("hour")` are of the time zone of the dates of Reports.
-- `attendance_rate` is a rounded float and is left out, as is the event stream.
pub mod Grouping
pub mod Points
pub mod Hours
use attendance_tracker.Prelude.{
  ℕ, zero, suc, ◌+◌, ◌-◌, ◌/◌, ◌%◌, Text, Option, none, some, Bool, true, false, not, ◌&&◌, List,
  [], ◌∷◌, map, ltb, leb, ◌==◌, holds, any, find, count, take, length, select_where, codes,
  if◌then◌else◌,
}
use attendance_tracker.Database.Rows.{Db, User, Department, Attendance, Embedding, SpoofAttempt}
use attendance_tracker.Database.Session.{Handler, pure, gets, ◌>>=◌}
use attendance_tracker.Reports.{
  Joined, join, joined, today, in_organization, department_of, AttendanceResponse, row_to_response,
  Names,
}
use attendance_tracker.Reports.Stats.{distinct, is_active_member, user_ids}
use attendance_tracker.Reports.Sheet.{departments_of}

-- `func.extract("hour", ...)`
abbrev pub hour_of : ℕ → ℕ
hour_of t = t % 86400000000 / 3600000000

abbrev pub is_day : ℕ → ℕ → Bool
is_day day t = today t == day

-- genuine marks of an organization
abbrev pub is_genuine : ℕ → Attendance → Bool
is_genuine organization_id a = a.organization_id == organization_id && not a.is_spoof

abbrev pub day_scope : ℕ → ℕ → Attendance → Bool
day_scope organization_id day a = is_genuine organization_id a && is_day day a.timestamp

abbrev pub spoof_scope : ℕ → ℕ → SpoofAttempt → Bool
spoof_scope organization_id day s = s.organization_id == organization_id && is_day day s.timestamp

-- an embedding, by an inner join with its user in the organization
abbrev pub is_registered : ℕ → Db → Embedding → Bool
is_registered organization_id db e = elim (find (λ u. u.id == e.user_id) db.users) [
  | none ↦ false
  | some u ↦ u.organization_id == organization_id
]

pub record DashboardSummaryResponse : Type 0 where
  pub total_users : ℕ
  pub registered_users : ℕ
  pub unregistered_users : ℕ
  pub active_users : ℕ
  pub present_today : ℕ
  pub absent_today : ℕ
  pub total_attendance_today : ℕ
  pub spoof_attempts_today : ℕ

unfoldable pub get_dashboard_summary : ℕ → User → Handler DashboardSummaryResponse
unfolding distinct
get_dashboard_summary now current_user =
    let org_id = current_user.organization_id in
    do
      total_users ← gets (λ db. count (λ u. u.organization_id == org_id) db.users)
      active_users ← gets (λ db. count (is_active_member org_id) db.users)
      registered_users ← gets (λ db. count (is_registered org_id db) db.embeddings)
      total_attendance_today ← gets (λ db. count (day_scope org_id (today now)) db.attendance)
      present_today ←
          gets λ db. distinct (user_ids (select_where (day_scope org_id (today now)) db.attendance))
      spoof_attempts_today ← gets (λ db. count (spoof_scope org_id (today now)) db.spoof_attempts)
      pure (record {
        total_users = total_users;
        registered_users = registered_users;
        unregistered_users = total_users - registered_users;
        active_users = active_users;
        present_today = present_today;
        absent_today = active_users - present_today;
        total_attendance_today = total_attendance_today;
        spoof_attempts_today = spoof_attempts_today;
      })

unfoldable pub with_key : ℕ → List ℕ → List ℕ
with_key k keys = if any (λ j. j == k) keys then keys else k ∷ keys

unfoldable pub keys_of : {R : Type 0} → (R → ℕ) → List R → List ℕ
unfolding with_key
keys_of key [] = []
keys_of key (r ∷ rows) = with_key (key r) (keys_of key rows)

unfoldable pub groups : {R V : Type 0} → (R → ℕ) → (List R → V) → List R → List ℕ → List (ℕ × V)
groups key value rows [] = []
groups key value rows (k ∷ keys) =
    (k, value (select_where (λ r. key r == k) rows)) ∷ groups key value rows keys

-- `select(key, aggregates).group_by(key)`
unfoldable pub group_by : {R V : Type 0} → (R → ℕ) → (List R → V) → List R → List (ℕ × V)
unfolding keys_of groups
group_by key value rows = groups key value rows (keys_of key rows)

-- `groups.get(key, default)`
abbrev pub get_group : {V : Type 0} → V → ℕ → List (ℕ × V) → V
get_group default k rows = elim (find (λ r. r.0 == k) rows) [ none ↦ default | some r ↦ r.1 ]

pub record DailyChartPoint : Type 0 where
  pub date : ℕ
  pub present : ℕ
  pub absent : ℕ
  pub total : ℕ

-- the aggregates of a day: distinct users, and rows
abbrev pub day_counts : List Attendance → ℕ × ℕ
day_counts rows = (distinct (user_ids rows), length rows)

abbrev pub day_point : ℕ → List (ℕ × (ℕ × ℕ)) → ℕ → DailyChartPoint
day_point active_users by_date day =
    let (present, total) = get_group (0, 0) day by_date in
    record { date = day; present = present; absent = active_users - present; total = total }

-- the points of `n` days from `day` on
unfoldable pub day_points : ℕ → List (ℕ × (ℕ × ℕ)) → ℕ → ℕ → List DailyChartPoint
day_points active_users by_date zero day = []
day_points active_users by_date (suc n) day =
    day_point active_users by_date day ∷ day_points active_users by_date n (day + 1)

-- the genuine marks of the days from `a` to `b`
abbrev pub in_days : ℕ → ℕ → ℕ → Attendance → Bool
in_days organization_id a b row =
    is_genuine organization_id row && leb a (today row.timestamp) && leb (today row.timestamp) b

-- `days` is at least 1; days before the first one are not considered
unfoldable pub get_daily_chart : ℕ → ℕ → User → Handler (List DailyChartPoint × ℕ × ℕ)
unfolding group_by day_points
get_daily_chart now days current_user =
    let end_date = today now in
    let start_date = end_date - (days - 1) in
    do
      by_date ← gets λ db.
          group_by (λ (a : Attendance). today a.timestamp) day_counts
            (select_where (in_days current_user.organization_id start_date end_date) db.attendance)
      active_users ← gets (λ db. count (is_active_member current_user.organization_id) db.users)
      pure (day_points active_users by_date days start_date, start_date, end_date)

pub record DepartmentStats : Type 0 where
  pub department_id : ℕ
  pub department_name : Text
  pub total_users : ℕ
  pub present_today : ℕ
  pub absent_today : ℕ

-- the rows that an inner join with a user in a department keeps, with that department
pub in_departments : Db → List Attendance → List (ℕ × Attendance)
in_departments db [] = []
in_departments db (a ∷ rows) = elim (department_of (join db a).1) [
  | none ↦ in_departments db rows
  | some id ↦ (id, a) ∷ in_departments db rows
]

abbrev pub department_stats : Db → List (ℕ × ℕ) → Department → DepartmentStats
department_stats db present_by_dept d =
    let total = count (λ u. holds u.department_id d.id) db.users in
    let present = get_group 0 d.id present_by_dept in
    record {
      department_id = d.id;
      department_name = d.name;
      total_users = total;
      present_today = present;
      absent_today = total - present;
    }

-- `by_name` is the order of the names
unfoldable pub get_department_chart :
    (List Department → List Department) → ℕ → User → Handler (List DepartmentStats × ℕ)
unfolding group_by in_departments distinct
get_department_chart by_name now current_user =
    let org_id = current_user.organization_id in
    do
      departments ←
          gets λ db. by_name (select_where (λ d. d.organization_id == org_id) db.departments)
      present_by_dept ← gets λ db.
          group_by (λ (r : ℕ × Attendance). r.0)
            (λ rows. distinct (map (λ (r : ℕ × Attendance). r.1.user_id) rows))
            (in_departments db (select_where (day_scope org_id (today now)) db.attendance))
      data_ ← gets (λ db. map (department_stats db present_by_dept) departments)
      pure (data_, length data_)

-- the points of `n` hours from `hour` on
unfoldable pub hour_points : List (ℕ × ℕ) → ℕ → ℕ → List (ℕ × ℕ)
hour_points counts zero hour = []
hour_points counts (suc n) hour = (hour, get_group 0 hour counts) ∷ hour_points counts n (hour + 1)

-- an hour of the day is less than 24, so no group is dropped
unfoldable pub get_hourly_chart : ℕ → User → Handler (List (ℕ × ℕ) × ℕ)
unfolding group_by hour_points
get_hourly_chart now current_user = do
  counts ← gets λ db.
      group_by (λ (a : Attendance). hour_of a.timestamp) length
        (select_where (day_scope current_user.organization_id (today now)) db.attendance)
  pure (hour_points counts 24 0, today now)

-- `name or "Unknown"`
abbrev pub shown_name : Option User → Text
shown_name none = codes "Unknown"
shown_name (some u) = elim u.name [ [] ↦ codes "Unknown" | c ∷ cs ↦ u.name ]

unfoldable pub feed_event : Names → Joined → AttendanceResponse
unfolding row_to_response
feed_event dept_names r = record (row_to_response dept_names r) { user_name = shown_name r.1 }

unfoldable pub get_attendance_feed :
    (List Joined → List Joined) → ℕ → User → Handler (List AttendanceResponse)
unfolding feed_event departments_of
get_attendance_feed newest_first limit current_user = do
  rows ← gets λ db.
      take limit
        (newest_first (select_where (in_organization current_user.organization_id) (joined db)))
  dept_names ← gets (departments_of rows)
  pure (map (feed_event dept_names) rows)
