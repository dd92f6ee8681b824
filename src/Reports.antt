-- ===== src/Reports.antt =====
-- The reading routes of src/api/routes/attendance.py and src/api/schemas/attendance.py.
-- A date is the number of its day, in the server's time zone, and `datetime.combine` with the
-- least time is the first microsecond of the day. The database orders rows by descending
-- timestamp in an order of its own where timestamps are equal, which may differ from query to
-- query: `newest_first` is a parameter, the order of the one query of each definition. Row
-- ids, `confidence` and `metadata` are left out as in Marking.
pub mod Order
pub mod Paging
pub mod Ties
pub mod Today
pub mod Stats
pub mod Counting
pub mod Agreement
pub mod Sheet
pub mod Exported
pub mod Task
pub mod Exports
use attendance_tracker.Prelude.{
  ℕ, ◌+◌, ◌-◌, ◌*◌, ◌/◌, Text, Option, none, some, Bool, true, false, ◌&&◌, List, [], ◌∷◌, map, ltb,
  leb, ◌==◌, holds, if◌then◌else◌, find, count, take, drop, select_where, codes, length,
}
use attendance_tracker.Database.Rows.{Db, User, Department, Attendance, Method, auto, manual, kiosk}
use attendance_tracker.Database.Session.{Handler, pure, gets, ◌>>=◌}
use attendance_tracker.Platform.{days}
use attendance_tracker.Identity.{PaginationParams}

-- a row of `select(Attendance, User).outerjoin(User, ...)`
abbrev pub Joined : Type 0
Joined = Attendance × Option User

abbrev pub join : Db → Attendance → Joined
join db a = (a, find (λ u. u.id == a.user_id) db.users)

abbrev pub joined : Db → List Joined
joined db = map (join db) db.attendance

abbrev pub method_eq : Method → Method → Bool
method_eq auto auto = true
method_eq manual manual = true
method_eq kiosk kiosk = true
method_eq _ _ = false

abbrev pub bool_eq : Bool → Bool → Bool
bool_eq true b = b
bool_eq false true = false
bool_eq false false = true

-- `date.today()`
abbrev pub today : ℕ → ℕ
today now = now / 86400000000

-- `if filter: query = query.where(...)`
abbrev pub if_set : {A : Type 0} → Option A → (A → Bool) → Bool
if_set none q = true
if_set (some x) q = q x

-- `User.department_id == id` on the joined row
abbrev pub in_department : Option User → ℕ → Bool
in_department none id = false
in_department (some u) id = holds u.department_id id

pub record AttendanceQueryFilters : Type 0 where
  pub date_from : Option ℕ
  pub date_to : Option ℕ
  pub user_id : Option ℕ
  pub department_id : Option ℕ
  pub method : Option Method
  pub is_spoof : Option Bool
  pub page : ℕ
  pub page_size : ℕ

-- the conditions that `_apply_attendance_filters` adds
unfoldable pub meets_filters : AttendanceQueryFilters → Joined → Bool
meets_filters filters (a, user) =
    if_set filters.date_from (λ d. leb (days d) a.timestamp)
    && if_set filters.date_to (λ d. ltb a.timestamp (days (d + 1)))
    && if_set filters.user_id (λ id. a.user_id == id)
    && if_set filters.department_id (in_department user)
    && if_set filters.method (method_eq a.method)
    && if_set filters.is_spoof (bool_eq a.is_spoof)

abbrev pub in_organization : ℕ → Joined → Bool
in_organization organization_id (a, user) = a.organization_id == organization_id

-- the rows of the requester's organization that meet the filters
unfoldable pub is_listed : User → AttendanceQueryFilters → Joined → Bool
unfolding meets_filters
is_listed current_user filters r =
    in_organization current_user.organization_id r && meets_filters filters r

pub record AttendanceResponse : Type 0 where
  pub user_id : ℕ
  pub user_name : Text
  pub user_external_id : Option Text
  pub timestamp : ℕ
  pub method : Method
  pub is_spoof : Bool
  pub device_id : Option Text
  pub department_name : Option Text

-- a dict of department names by id
abbrev pub Names : Type 0
Names = List Department

abbrev pub get_name : Names → ℕ → Option Text
get_name names id = elim (find (λ d. d.id == id) names) [ none ↦ none | some d ↦ some d.name ]

-- `_dept_name_map`
abbrev pub dept_name_map : ℕ → Db → Names
dept_name_map organization_id db =
    select_where (λ d. d.organization_id == organization_id) db.departments

abbrev pub name_of : Option User → Text
name_of none = codes "Unknown"
name_of (some u) = u.name

abbrev pub external_id_of : Option User → Option Text
external_id_of none = none
external_id_of (some u) = u.external_id

abbrev pub department_of : Option User → Option ℕ
department_of none = none
department_of (some u) = u.department_id

unfoldable pub row_to_response : Names → Joined → AttendanceResponse
row_to_response dept_names (record_, user) = record {
  user_id = record_.user_id;
  user_name = name_of user;
  user_external_id = external_id_of user;
  timestamp = record_.timestamp;
  method = record_.method;
  is_spoof = record_.is_spoof;
  device_id = record_.device_id;
  department_name = elim (department_of user) [ none ↦ none | some id ↦ get_name dept_names id ];
}

pub record AttendanceListResponse : Type 0 where
  pub records : List AttendanceResponse
  pub total : ℕ
  pub page : ℕ
  pub page_size : ℕ

module _ (newest_first : List Joined → List Joined) where
  -- `query.order_by(Attendance.timestamp.desc()).offset(offset).limit(limit)`
  -- in the order of this one query
  abbrev pub page_rows : (Joined → Bool) → ℕ → ℕ → Db → List Joined
  page_rows q offset limit db = take limit (drop offset (newest_first (select_where q (joined db))))

  unfoldable pub query_attendance : AttendanceQueryFilters → User → Handler AttendanceListResponse
  unfolding is_listed row_to_response
  query_attendance filters current_user = do
    total ← gets (λ db. count (is_listed current_user filters) (joined db))
    rows ← gets (
        page_rows (is_listed current_user filters) ((filters.page - 1) * filters.page_size)
          filters.page_size)
    dept_names ← gets (dept_name_map current_user.organization_id)
    pure (record {
      records = map (row_to_response dept_names) rows;
      total = total;
      page = filters.page;
      page_size = filters.page_size;
    })

  unfoldable pub get_today_attendance : ℕ → PaginationParams → User → Handler AttendanceListResponse
  unfolding row_to_response
  get_today_attendance now pagination current_user = do
    total ← gets λ db.
        count
          (λ a.
            a.organization_id == current_user.organization_id && leb (days (today now)) a.timestamp)
          db.attendance
    rows ← gets (
        page_rows
          (λ r.
            in_organization current_user.organization_id r && leb (days (today now)) r.0.timestamp)
          pagination.offset pagination.page_size)
    dept_names ← gets (dept_name_map current_user.organization_id)
    pure (record {
      records = map (row_to_response dept_names) rows;
      total = total;
      page = pagination.page;
      page_size = pagination.page_size;
    })
