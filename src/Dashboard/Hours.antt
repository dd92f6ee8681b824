-- ===== src/Dashboard/Hours.antt =====
-- The hourly chart, the summary and the daily chart of one day.
use attendance_tracker.Prelude.{
  ℕ, zero, suc, ◌+◌, ◌<◌, ◌≡◌, refl, ap, ◌∙◌, Bool, ◌&&◌, List, [], ◌∷◌, map, length, count, All,
  select_where, ◌==◌, arith,
}
use attendance_tracker.Database.Rows.{Db, User, Attendance}
use attendance_tracker.Database.Session.{request, ok}
use attendance_tracker.Reports.{today}
use attendance_tracker.Reports.Paging.{length-select_where}
use attendance_tracker.Dashboard
use attendance_tracker.Dashboard.{day_scope, hour_of}
use attendance_tracker.Dashboard.Points.{days_from}
use attendance_tracker.Dashboard.Grouping.{
  get_group-group_by, of_key, sum_keys, sum_keys_lem, in_range, count-select_where,
  select_where-select_where,
}

abbrev pub check_ins : List (ℕ × ℕ) → ℕ
check_ins [] = 0
check_ins ((hour, n) ∷ points) = n + check_ins points

abbrev pub hour_key : Attendance → ℕ
hour_key a = hour_of a.timestamp

hour_bound : (t : ℕ) → hour_of t < 24
hour_bound t = omega arith

module _ (user : User) (db : Db) (day : ℕ) where
  scope : Attendance → Bool
  scope = day_scope user.organization_id day

  rows : List Attendance
  unfolding scope
  rows = select_where scope db.attendance

  counts : List (ℕ × ℕ)
  unfolding rows
  counts = Dashboard.group_by hour_key length rows

  -- the number of a point is that of the day's genuine marks in its hour
  abbrev pub IsHour : ℕ × ℕ → Type 0
  IsHour (hour, n) =
      n
      ≡ count (λ row. day_scope user.organization_id day row && (hour_key row == hour))
          db.attendance

  counts_lem :
      (hour : ℕ) → Dashboard.get_group 0 hour counts ≡ length (of_key hour_key length hour rows)
  unfolding counts
  counts_lem hour = get_group-group_by hour_key length 0 hour rows refl

  get_group-IsHour : (hour : ℕ) → IsHour (hour, Dashboard.get_group 0 hour counts)
  unfolding rows scope
  get_group-IsHour hour =
      counts_lem hour
      ∙ ap length (select_where-select_where scope (λ row. hour_key row == hour) db.attendance)
      ∙ length-select_where (λ row. scope row && (hour_key row == hour)) db.attendance

  hour_points-IsHour : (n hour : ℕ) → All IsHour (Dashboard.hour_points counts n hour)
  unfolding Dashboard.hour_points
  hour_points-IsHour zero hour = tt
  hour_points-IsHour (suc n) hour = (get_group-IsHour hour, hour_points-IsHour n (hour + 1))

  map-hour_points :
      (n hour : ℕ)
      → map (λ (x : ℕ × ℕ). x.0) (Dashboard.hour_points counts n hour) ≡ days_from hour n
  unfolding Dashboard.hour_points
  map-hour_points zero hour = refl
  map-hour_points (suc n) hour = ap (λ hs. hour ∷ hs) (map-hour_points n (hour + 1))

  sum-hour_points :
      (n hour : ℕ) → check_ins (Dashboard.hour_points counts n hour) ≡ sum_keys hour_key hour n rows
  unfolding Dashboard.hour_points
  sum-hour_points zero hour = refl
  sum-hour_points (suc n) hour =
      let total = counts_lem hour ∙ length-select_where (λ row. hour_key row == hour) rows in
      omega (arith, total, sum-hour_points n (hour + 1))

  all_hours : count (in_range hour_key 0 24) rows ≡ count scope db.attendance
  unfolding rows
  all_hours =
      count-select_where scope (in_range hour_key 0 24) db.attendance
        (λ row h. ground (arith, hour_bound row.timestamp))

-- The hourly chart has one point for each of the 24 hours, in order; each has the number of today's
-- genuine marks of the organization in its hour, and together they are the number of marks that the
-- summary reports for today.
pub get_hourly_chart-get_dashboard_summary :
    (now : ℕ) (user : User) (db : Db)
    → (points : List (ℕ × ℕ)) × (s : Dashboard.DashboardSummaryResponse) × (request
          (Dashboard.get_hourly_chart now user)
          db
        ≡ (ok (points, today now), db, []))
      × (request (Dashboard.get_dashboard_summary now user) db ≡ (ok s, db, []))
      × (map (λ (x : ℕ × ℕ). x.0) points ≡ days_from 0 24)
      × All (IsHour user db (today now)) points
      × (check_ins points ≡ s.total_attendance_today)
unfolding Dashboard.get_hourly_chart Dashboard.get_dashboard_summary request counts rows scope
get_hourly_chart-get_dashboard_summary now user db =
    let day = today now in
    (
      Dashboard.hour_points (counts user db day) 24 0,
      _,
      refl,
      refl,
      map-hour_points user db day 24 0,
      hour_points-IsHour user db day 24 0,
      sum-hour_points user db day 24 0
          ∙ sum_keys_lem hour_key 0 24 (rows user db day)
          ∙ all_hours user db day,
    )
