-- ===== src/Users/Listing.antt =====
-- `list_users` and `get_me` of src/api/routes/users.py. `ilike` is the database's match of a column
-- with a pattern, and `newest_first` its order of the creation times.
use attendance_tracker.Prelude.{
  ℕ, Text, Option, none, some, Bool, true, false, ◌&&◌, ◌||◌, List, [], ◌∷◌, ◌++◌, map, count, drop,
  take, select_where, ◌==◌, holds, codes,
}
use attendance_tracker.Database.Rows.{Db, User}
use attendance_tracker.Database.Session.{Handler, pure, gets, ◌>>=◌}
use attendance_tracker.Identity.{PaginationParams, get_org_admin_user}
use attendance_tracker.Reports.{Names, get_name, dept_name_map, if_set, bool_eq}
use attendance_tracker.Users.{embedded}

pub record UserFilters : Type 0 where
  pub search : Option Text
  pub department_id : Option ℕ
  pub is_active : Option Bool
  pub is_registered : Option Bool

-- a user, the name of the department, and whether a face is registered: `_to_response`
pub record UserResponse : Type 0 where
  pub user : User
  pub department_name : Option Text
  pub is_registered : Bool

pub record UserListResponse : Type 0 where
  pub users : List UserResponse
  pub total : ℕ
  pub page : ℕ
  pub page_size : ℕ

abbrev pub department_name : Names → User → Option Text
department_name names u = elim u.department_id [ none ↦ none | some id ↦ get_name names id ]

abbrev pub to_response : Names → Db → User → UserResponse
to_response names db u = record {
  user = u;
  department_name = department_name names u;
  is_registered = embedded u.id db;
}

module _ (ilike : Text → Text → Bool) where
  -- a column that may be NULL
  abbrev pub column_matches : Text → Option Text → Bool
  column_matches pattern none = false
  column_matches pattern (some s) = ilike pattern s

  -- `if search:` with the pattern `%search%`
  unfoldable pub meets_search : Option Text → User → Bool
  meets_search none u = true
  meets_search (some []) u = true
  meets_search (some (c ∷ cs)) u =
      let pattern = codes "%" ++ (c ∷ cs) ++ codes "%" in
      ilike pattern u.name || column_matches pattern u.email || column_matches pattern u.external_id

  -- the conditions of both queries
  unfoldable pub is_listed_user : User → UserFilters → Db → User → Bool
  unfolding meets_search
  is_listed_user current_user filters db u =
      u.organization_id == current_user.organization_id
      && meets_search filters.search u
      && if_set filters.department_id (holds u.department_id)
      && if_set filters.is_active (bool_eq u.is_active)
      && if_set filters.is_registered (bool_eq (embedded u.id db))

  unfoldable pub list_users :
      (List User → List User) → UserFilters → PaginationParams → User → Handler UserListResponse
  unfolding is_listed_user get_org_admin_user
  list_users newest_first filters pagination requester = do
    current_user ← get_org_admin_user requester
    total ← gets (λ db. count (is_listed_user current_user filters db) db.users)
    users ← gets λ db. take pagination.page_size (
        drop pagination.offset
          (newest_first (select_where (is_listed_user current_user filters db) db.users)))
    dept_names ← gets (dept_name_map current_user.organization_id)
    responses ← gets (λ db. map (to_response dept_names db) users)
    pure (record {
      users = responses;
      total = total;
      page = pagination.page;
      page_size = pagination.page_size;
    })
