-- ===== src/Dashboard/Points.antt =====
-- The points of the daily chart.
use attendance_tracker.Prelude.{
  ℕ, zero, suc, ◌+◌, ◌-◌, ◌≤◌, ◌≡◌, refl, ap, ◌∙◌, ◌&&◌, List, [], ◌∷◌, map, length, All, count,
  select_where, ◌==◌, arith,
}
use attendance_tracker.Database.Rows.{Db, User, Attendance}
use attendance_tracker.Database.Session.{request, ok}
use attendance_tracker.Reports.{today}
use attendance_tracker.Reports.Stats.{distinct, user_ids, is_active_member}
use attendance_tracker.Reports.Paging.{length-select_where}
use attendance_tracker.Dashboard
use attendance_tracker.Dashboard.{DailyChartPoint, day_scope, in_days}
use attendance_tracker.Dashboard.Grouping.{
  get_group-group_by, of_key, sum_keys, sum_keys_lem, in_range, count-select_where,
  select_where-select_where,
}

-- `n` days in a row
abbrev pub days_from : ℕ → ℕ → List ℕ
days_from day zero = []
days_from day (suc n) = day ∷ days_from (day + 1) n

abbrev pub sum_totals : List DailyChartPoint → ℕ
sum_totals [] = 0
sum_totals (x ∷ points) = x.total + sum_totals points

abbrev pub day_key : Attendance → ℕ
day_key a = today a.timestamp

-- a day's scope within the range
scope_of_day :
    (org a b day : ℕ)
    → a ≤ day
    → day ≤ b
    → (λ row. in_days org a b row && (day_key row == day)) ≡ day_scope org day
scope_of_day org a b day low high = λ i row. same row i
  where
    same :
        (row : Attendance) → (in_days org a b row && (day_key row == day)) ≡ day_scope org day row
    same row = ground (arith, low, high)

module _ (user : User) (db : Db) (a b : ℕ) where
  rows : List Attendance
  rows = select_where (in_days user.organization_id a b) db.attendance

  abbrev active : ℕ
  active = count (is_active_member user.organization_id) db.users

  by_date : List (ℕ × (ℕ × ℕ))
  unfolding rows
  by_date = Dashboard.group_by day_key Dashboard.day_counts rows

  -- the figures of a point are those of the day's genuine marks in the organization
  abbrev pub IsPoint : DailyChartPoint → Type 0
  IsPoint x =
      (x.total ≡ count (day_scope user.organization_id x.date) db.attendance)
      × (x.present
          ≡ distinct
              (user_ids (select_where (day_scope user.organization_id x.date) db.attendance)))
      × (x.absent ≡ active - x.present)

  day_counts_lem :
      (day : ℕ)
      → Dashboard.get_group (0, 0) day by_date ≡ (
        distinct (user_ids (of_key day_key Dashboard.day_counts day rows)),
        length (of_key day_key Dashboard.day_counts day rows),
      )
  unfolding by_date distinct
  day_counts_lem day = get_group-group_by day_key Dashboard.day_counts (0, 0) day rows refl

  day_rows :
      (day : ℕ)
      → a ≤ day
      → day ≤ b
      → of_key day_key Dashboard.day_counts day rows
        ≡ select_where (day_scope user.organization_id day) db.attendance
  unfolding rows
  day_rows day low high =
      select_where-select_where (in_days user.organization_id a b) (λ row. day_key row == day)
        db.attendance
      ∙ ap (λ q. select_where q db.attendance) (scope_of_day user.organization_id a b day low high)

  day_point-IsPoint :
      (day : ℕ) → a ≤ day → day ≤ b → IsPoint (Dashboard.day_point active by_date day)
  day_point-IsPoint day low high =
      let counts = day_counts_lem day ∙ ap Dashboard.day_counts (day_rows day low high) in
      (
        ap (λ c. c.1) counts
            ∙ length-select_where (day_scope user.organization_id day) db.attendance,
        ap (λ c. c.0) counts,
        refl,
      )

  day_points-IsPoint :
      (n day : ℕ)
      → a ≤ day
      → day + n ≤ b + 1
      → All IsPoint (Dashboard.day_points active by_date n day)
  unfolding Dashboard.day_points
  day_points-IsPoint zero day low high = tt
  day_points-IsPoint (suc n) day low high = (
    day_point-IsPoint day low (omega (arith, high)),
    day_points-IsPoint n (day + 1) (omega (arith, low)) (omega (arith, high)),
  )

  map-day_points :
      (n day : ℕ)
      → map DailyChartPoint.date (Dashboard.day_points active by_date n day) ≡ days_from day n
  unfolding Dashboard.day_points
  map-day_points zero day = refl
  map-day_points (suc n) day = ap (λ ds. day ∷ ds) (map-day_points n (day + 1))

  sum-day_points :
      (n day : ℕ)
      → sum_totals (Dashboard.day_points active by_date n day) ≡ sum_keys day_key day n rows
  unfolding Dashboard.day_points
  sum-day_points zero day = refl
  sum-day_points (suc n) day =
      let total =
        ap (λ c. c.1) (day_counts_lem day) ∙ length-select_where (λ row. day_key row == day) rows in
      omega (arith, total, sum-day_points n (day + 1))

  all_in_range :
      (n : ℕ)
      → a + n ≡ b + 1
      → count (in_range day_key a n) rows ≡ count (in_days user.organization_id a b) db.attendance
  unfolding rows
  all_in_range n e =
      count-select_where (in_days user.organization_id a b) (in_range day_key a n) db.attendance
        (λ row h. ground (arith, e, h))

-- The daily chart of `n` days, which is at least one and no more than there are since day 0, has
-- exactly one point for each day, in a row and up to today. Each point has the numbers of the
-- genuine marks and of the distinct users of its day in the organization, and the totals of all
-- points add up to the genuine marks of the range.
pub get_daily_chart_lem :
    (now n : ℕ) (user : User) (db : Db)
    → 1 ≤ n
    → n ≤ today now + 1
    → let b = today now in
      let a = b - (n - 1) in
      (points : List DailyChartPoint) × (request (Dashboard.get_daily_chart now n user) db
        ≡ (ok (points, a, b), db, []))
      × (a + n ≡ b + 1)
      × (map DailyChartPoint.date points ≡ days_from a n)
      × All (IsPoint user db a b) points
      × (sum_totals points ≡ count (in_days user.organization_id a b) db.attendance)
unfolding Dashboard.get_daily_chart request by_date rows
get_daily_chart_lem now n user db some_days few =
    let b = today now in
    let a = b - (n - 1) in
    let e : a + n ≡ b + 1 = omega (arith, some_days, few) in
    (
      Dashboard.day_points (active user db a b) (by_date user db a b) n a,
      refl,
      e,
      map-day_points user db a b n a,
      day_points-IsPoint user db a b n a (omega arith) (omega (arith, e)),
      sum-day_points user db a b n a
          ∙ sum_keys_lem day_key a n (rows user db a b)
          ∙ all_in_range user db a b n e,
    )
