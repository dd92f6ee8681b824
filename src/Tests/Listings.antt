-- ===== src/Tests/Listings.antt =====
-- Witnesses for the theorems on lists, statistics and exports of attendance.
use mathlib.Core.List.{Perm}
use attendance_tracker.Prelude.{
  ℕ, ◌≡◌, ◌≤◌, ◌+◌, ◌*◌, ◌↔◌, refl, none, some, true, false, List, [], ◌∷◌, map, length, arith,
  Text, All, count,
}
use attendance_tracker.Database.Rows.{Db, Attendance, auto, kiosk}
use attendance_tracker.Database.Session.{request, ok}
use attendance_tracker.Platform.{days}
use attendance_tracker.Reports
use attendance_tracker.Reports.{AttendanceResponse, AttendanceQueryFilters}
use attendance_tracker.Reports.Order.{IsDescending, insertion_sort, insertion_sort-Orders}
use attendance_tracker.Reports.Paging.{
  pages, listed, page_of, response, total_of, query_attendance-pages,
}
use attendance_tracker.Reports.Ties.{IsUntied}
use attendance_tracker.Reports.Stats
use attendance_tracker.Reports.Counting.{sum}
use attendance_tracker.Reports.Agreement.{
  IsConsistent, listed_total, get_attendance_stats-query_attendance,
}
use attendance_tracker.Reports.Sheet
use attendance_tracker.Reports.Exported.{
  named, answered, ExportOutcome, MayExport, export_attendance_exactly,
}
use attendance_tracker.Reports.Task
use attendance_tracker.Reports.Exports.{HasName, export_attendance-generate_export_task}
use attendance_tracker.Users.Exactly.{Returned}
use attendance_tracker.Dashboard
use attendance_tracker.Dashboard.Points.{days_from, sum_totals, IsPoint, get_daily_chart_lem}
use attendance_tracker.Dashboard.Hours.{check_ins, IsHour, get_hourly_chart-get_dashboard_summary}
use attendance_tracker.Tests.{ann, tables}

abbrev seen : ℕ → ℕ → Attendance
seen user_id t = record {
  organization_id = 1;
  user_id = user_id;
  timestamp = t;
  method = auto;
  is_spoof = false;
  device_id = none;
}

-- Ann on day 3, a spoof on day 4, Bob on day 4, and one of another organization
abbrev week : Db
week = record tables {
  attendance =
      seen 10 (days 3 + 5)
      ∷ record (seen 11 (days 4 + 9)) { is_spoof = true }
      ∷ record (seen 11 (days 4 + 30)) { method = kiosk }
      ∷ record (seen 12 (days 4 + 31)) { organization_id = 2 }
      ∷ [];
}

abbrev unfiltered : AttendanceQueryFilters
unfiltered = record {
  date_from = some 3;
  date_to = some 4;
  user_id = none;
  department_id = none;
  method = none;
  is_spoof = none;
  page = 1;
  page_size = 2;
}

-- every page by the same order
abbrev sorted : ℕ → List Reports.Joined → List Reports.Joined
sorted n rows = insertion_sort rows

three_listed : length (listed sorted unfiltered ann week) ≤ 2 * 2
unfolding Reports.is_listed
three_listed = omega arith

listed-IsUntied : IsUntied (listed sorted unfiltered ann week)
unfolding Reports.is_listed
listed-IsUntied =
    ((λ e. omega (arith, e), (λ e. omega (arith, e), tt)), ((λ e. omega (arith, e), tt), (tt, tt)))

query_attendance-pages_example :
    let all = pages sorted unfiltered ann week 2 in
    Perm all (map (response sorted unfiltered ann week) (listed sorted unfiltered ann week))
    × IsDescending AttendanceResponse.timestamp all
    × ((k : ℕ) → total_of (page_of sorted unfiltered ann week k) ≡ length all)
query_attendance-pages_example =
    query_attendance-pages sorted unfiltered ann week 2 (λ k. insertion_sort-Orders) listed-IsUntied
      three_listed

get_attendance_stats-query_attendance_example :
    let a = Stats.first_day (days 4 + 50) (some 3) in
    let b = Stats.last_day (days 4 + 50) (some 9) in
    (r : Stats.AttendanceStatsResponse) × (request
        (Stats.get_attendance_stats (days 4 + 50) (some 3) (some 9) ann)
        week
      ≡ (ok r, week, []))
    × IsConsistent insertion_sort ann week r
    × (r.total_records ≡ listed_total insertion_sort ann week a b none 1 2)
    × (r.spoof_attempts ≡ listed_total insertion_sort ann week a b (some true) 1 2)
    × (sum r.by_method ≡ listed_total insertion_sort ann week a b (some false) 1 2)
get_attendance_stats-query_attendance_example =
    get_attendance_stats-query_attendance insertion_sort ann week (days 4 + 50) (some 3) (some 9) 1
      2

abbrev both_days : Sheet.AttendanceExportRequest
both_days = record { date_from = 3; date_to = 4; format = Sheet.csv; department_id = none }

abbrev digits : ℕ → Text
digits n = n ∷ []

export_attendance_exactly_example :
    ExportOutcome insertion_sort digits both_days ann week
      (answered insertion_sort digits both_days ann week)
    × (Returned (answered insertion_sort digits both_days ann week).0
        ↔ MayExport insertion_sort digits both_days ann week)
export_attendance_exactly_example =
    export_attendance_exactly insertion_sort digits both_days ann week

get_daily_chart_lem_example :
    (points : List Dashboard.DailyChartPoint) × (request
        (Dashboard.get_daily_chart (days 4 + 50) 3 ann)
        week
      ≡ (ok (points, 2, 4), week, []))
    × (2 + 3 ≡ 4 + 1)
    × (map Dashboard.DailyChartPoint.date points ≡ days_from 2 3)
    × All (IsPoint ann week 2 4) points
    × (sum_totals points ≡ count (Dashboard.in_days 1 2 4) week.attendance)
get_daily_chart_lem_example =
    get_daily_chart_lem (days 4 + 50) 3 ann week (omega arith) (omega arith)

get_hourly_chart-get_dashboard_summary_example :
    (points : List (ℕ × ℕ)) × (s : Dashboard.DashboardSummaryResponse) × (request
        (Dashboard.get_hourly_chart (days 4 + 50) ann)
        week
      ≡ (ok (points, 4), week, []))
    × (request (Dashboard.get_dashboard_summary (days 4 + 50) ann) week ≡ (ok s, week, []))
    × (map (λ (x : ℕ × ℕ). x.0) points ≡ days_from 0 24)
    × All (IsHour ann week 4) points
    × (check_ins points ≡ s.total_attendance_today)
get_hourly_chart-get_dashboard_summary_example =
    get_hourly_chart-get_dashboard_summary (days 4 + 50) ann week

abbrev ordered_rows : List Attendance
ordered_rows = seen 11 (days 4 + 30) ∷ seen 10 (days 3 + 5) ∷ []

-- two rows of different timestamps
abbrev short_week : Db
short_week = record tables { attendance = ordered_rows }

may_export : MayExport insertion_sort digits both_days ann short_week
unfolding Sheet.is_exported insertion_sort
may_export = (refl, omega arith, omega arith)

named_users : All HasName (insertion_sort (named insertion_sort digits both_days ann short_week))
unfolding Sheet.is_exported insertion_sort
named_users = (refl, (refl, tt))

named-IsUntied : IsUntied (named insertion_sort digits both_days ann short_week)
unfolding Sheet.is_exported
named-IsUntied = ((λ e. omega (arith, e), tt), (tt, tt))

export_attendance-generate_export_task_example :
    (sheet : List Sheet.ExportRow) × ((answered insertion_sort digits both_days ann short_week).0
      ≡ ok sheet)
    × (Task.generate_export_task insertion_sort true 1 3 4 short_week ≡ some sheet)
export_attendance-generate_export_task_example =
    export_attendance-generate_export_task insertion_sort insertion_sort digits both_days ann
      short_week may_export refl named_users insertion_sort-Orders insertion_sort-Orders
      named-IsUntied
