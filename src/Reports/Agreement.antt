-- ===== src/Reports/Agreement.antt =====
-- The figures of `get_attendance_stats` among each other and with the lists.
use attendance_tracker.Prelude.{
  ℕ, ◌+◌, ◌≤◌, ◌≡◌, refl, sym, ap, ◌∙◌, Option, none, some, Bool, true, false, not, ◌&&◌, List, [],
  map, count, select_where, arith, text_eq,
}
use attendance_tracker.Database.Rows.{Db, User, Attendance}
use attendance_tracker.Database.Session.{request, ok}
use attendance_tracker.Reports
use attendance_tracker.Reports.{Joined, AttendanceQueryFilters, method_eq}
use attendance_tracker.Reports.Stats
use attendance_tracker.Reports.Stats.{distinct, group_count, bump, genuine}
use attendance_tracker.Reports.Paging.{total_of, length-select_where}
use attendance_tracker.Reports.Today.{count-map}
use attendance_tracker.Reports.Counting.{
  sum, sum-group_count, distinct-Subset, distinct_le, count_split, has-user_ids, length-names,
  length-map,
}

-- the query for the days from `a` to `b`, with and without a condition on spoofing
abbrev pub of_days : ℕ → ℕ → Option Bool → ℕ → ℕ → AttendanceQueryFilters
of_days a b is_spoof page page_size = record {
  date_from = some a;
  date_to = some b;
  user_id = none;
  department_id = none;
  method = none;
  is_spoof = is_spoof;
  page = page;
  page_size = page_size;
}

abbrev with_spoof : Option Bool → (Attendance → Bool) → Attendance → Bool
with_spoof s q row = q row && Reports.if_set s (Reports.bool_eq row.is_spoof)

is_listed-of_days :
    (user : User) (a b : ℕ) (s : Option Bool) (page page_size : ℕ)
    → Reports.is_listed user (of_days a b s page page_size) ≡ λ r.
        with_spoof s (Stats.in_scope user.organization_id a b) r.0
unfolding Reports.is_listed Reports.meets_filters
is_listed-of_days user a b s page page_size = λ i r. same s r i
  where
    same :
        (s : Option Bool) (r : Joined)
        → Reports.is_listed user (of_days a b s page page_size) r
          ≡ with_spoof s (Stats.in_scope user.organization_id a b) r.0
    same none (row, u) = ground arith
    same (some true) (row, u) = ground arith
    same (some false) (row, u) = ground arith

module _ (newest_first : List Joined → List Joined) (user : User) (db : Db) where
  -- the total that the list of the days from `a` to `b` reports
  abbrev pub listed_total : ℕ → ℕ → Option Bool → ℕ → ℕ → ℕ
  listed_total a b s page page_size =
      total_of
        (request (Reports.query_attendance newest_first (of_days a b s page page_size) user) db).0

  listed_total_lem :
      (a b : ℕ) (s : Option Bool) (page page_size : ℕ)
      → listed_total a b s page page_size
        ≡ count (with_spoof s (Stats.in_scope user.organization_id a b)) db.attendance
  unfolding request Reports.query_attendance
  listed_total_lem a b s page page_size =
      ap (λ q. count q (Reports.joined db)) (is_listed-of_days user a b s page page_size)
      ∙ count-map (λ (r : Joined). with_spoof s (Stats.in_scope user.organization_id a b) r.0)
          (Reports.join db) db.attendance

  count_with :
      (s : Option Bool) (p q : Attendance → Bool)
      → ((row : Attendance) → with_spoof s p row ≡ q row)
      → count (with_spoof s p) db.attendance ≡ count q db.attendance
  count_with s p q same = ap (λ f. count f db.attendance) (λ i row. same row i)

  -- the figures of `r` among each other
  abbrev pub IsConsistent : Stats.AttendanceStatsResponse → Type 0
  IsConsistent r =
      (r.spoof_attempts + sum r.by_method ≡ r.total_records)
      × (sum r.by_department ≤ sum r.by_method)
      × (r.present_users ≤ r.unique_users)
      × (r.unique_users ≤ r.total_records)

  aggregate-IsConsistent :
      (date_to : ℕ) (scope : Attendance → Bool)
      → IsConsistent (Stats.aggregate user.organization_id date_to scope db)
  aggregate-IsConsistent date_to scope =
      let honest = select_where (genuine scope) db.attendance in
      let all = select_where scope db.attendance in
      let methods = sum-group_count method_eq (map Attendance.method honest) in
      let departments = sum-group_count text_eq (Stats.names db honest) in
      (
        omega (
          arith,
          methods,
          length-map Attendance.method honest,
          length-select_where (genuine scope) db.attendance,
          count_split scope Attendance.is_spoof db.attendance,
        ),
        omega (
          arith,
          methods,
          departments,
          length-map Attendance.method honest,
          length-names db honest,
        ),
        distinct-Subset _ _ (λ z. has-user_ids scope (λ row. not row.is_spoof) z db.attendance),
        omega (
          arith,
          distinct_le (Stats.user_ids all),
          length-map Attendance.user_id all,
          length-select_where scope db.attendance,
        ),
      )

  -- The statistics of a range of days, of which the last is at most today, always answer, and their
  -- figures fit together: the genuine marks of all methods and the spoof attempts make the total,
  -- the marks by department are no more than those by method, present users are among the users
  -- seen, and these are no more than the marks. The totals are those of the list of the same days.
  pub get_attendance_stats-query_attendance :
      (now : ℕ) (date_from date_to : Option ℕ) (page page_size : ℕ)
      → let a = Stats.first_day now date_from in
        let b = Stats.last_day now date_to in
        (r : Stats.AttendanceStatsResponse) × (request
            (Stats.get_attendance_stats now date_from date_to user)
            db
          ≡ (ok r, db, []))
        × IsConsistent r
        × (r.total_records ≡ listed_total a b none page page_size)
        × (r.spoof_attempts ≡ listed_total a b (some true) page page_size)
        × (sum r.by_method ≡ listed_total a b (some false) page page_size)
  unfolding request Stats.get_attendance_stats
  get_attendance_stats-query_attendance now date_from date_to page page_size =
      let a = Stats.first_day now date_from in
      let b = Stats.last_day now date_to in
      let scope = Stats.in_scope user.organization_id a b in
      let fits = aggregate-IsConsistent b scope in
      let spoofs =
        count_with (some true) scope (λ row. scope row && row.is_spoof) (λ row. ground arith) in
      let honest = count_with (some false) scope (genuine scope) (λ row. ground arith) in
      (
        Stats.aggregate user.organization_id b scope db,
        refl,
        fits,
        sym (
            listed_total_lem a b none page page_size
            ∙ count_with none scope scope (λ row. ground arith)),
        sym (listed_total_lem a b (some true) page page_size ∙ spoofs),
        omega (
          arith,
          listed_total_lem a b (some false) page page_size,
          honest,
          fits.0,
          count_split scope Attendance.is_spoof db.attendance,
        ),
      )
