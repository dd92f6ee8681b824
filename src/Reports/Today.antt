-- ===== src/Reports/Today.antt =====
-- Today's list and the list of all attendance.
use attendance_tracker.Prelude.{
  ℕ, ◌-◌, ◌*◌, ◌≡◌, refl, sym, ap, ◌∙◌, none, some, Bool, ◌&&◌, List, [], ◌∷◌, map, count, leb, min,
  arith,
}
use attendance_tracker.Database.Rows.{Db, User}
use attendance_tracker.Database.Session.{request, Result, ok, Effect}
use attendance_tracker.Platform.{days}
use attendance_tracker.Identity.{pagination}
use attendance_tracker.Reports
use attendance_tracker.Reports.{Joined, AttendanceQueryFilters}

pub count-map :
    {A B : Type 0} (p : B → Bool) (f : A → B) (xs : List A)
    → count p (map f xs) ≡ count (λ x. p (f x)) xs
count-map p f [] = refl
count-map p f (x ∷ xs) = ground (arith, count-map p f xs)

-- the query from the day of `now` on, and no other filter
abbrev pub since_today : ℕ → ℕ → ℕ → AttendanceQueryFilters
since_today now page page_size = record {
  date_from = some (Reports.today now);
  date_to = none;
  user_id = none;
  department_id = none;
  method = none;
  is_spoof = none;
  page = page;
  page_size = page_size;
}

abbrev is_today : User → ℕ → Joined → Bool
is_today user now r =
    Reports.in_organization user.organization_id r && leb (days (Reports.today now)) r.0.timestamp

is_listed_today :
    (user : User) (now page page_size : ℕ)
    → Reports.is_listed user (since_today now page page_size) ≡ is_today user now
unfolding Reports.is_listed Reports.meets_filters
is_listed_today user now page page_size = λ i r. same r i
  where
    same :
        (r : Joined)
        → Reports.is_listed user (since_today now page page_size) r ≡ is_today user now r
    same (a, u) = ground arith

module _ (newest_first : List Joined → List Joined) (now max_page_size page page_size : ℕ)
    (user : User) (db : Db) where
  -- the answer for rows that meet `q`
  abbrev answer : (Joined → Bool) → ℕ → Result Reports.AttendanceListResponse × Db × List Effect
  answer q total = (
    ok (record {
      records = map (Reports.row_to_response (Reports.dept_name_map user.organization_id db)) (
          Reports.page_rows newest_first q ((page - 1) * min page_size max_page_size)
            (min page_size max_page_size) db);
      total = total;
      page = page;
      page_size = min page_size max_page_size;
    }),
    db,
    [],
  )

  -- Today's list is the list of the attendance from today on without another filter, on the page
  -- asked for and of a page size that is cut to the greatest one.
  pub get_today_attendance-query_attendance :
      request
        (Reports.get_today_attendance newest_first now
          (pagination max_page_size page page_size)
          user)
        db
      ≡ request
          (Reports.query_attendance newest_first
            (since_today now page (min page_size max_page_size))
            user)
          db
  unfolding request Reports.get_today_attendance Reports.query_attendance pagination
  get_today_attendance-query_attendance =
      let same = is_listed_today user now page (min page_size max_page_size) in
      ap (answer (is_today user now))
        (sym (count-map (is_today user now) (Reports.join db) db.attendance))
      ∙ ap (λ q. answer q (count q (Reports.joined db))) (sym same)
