-- ===== src/Reports/Paging.antt =====
-- The pages of `query_attendance` taken together.
use mathlib.Core.List.{Perm}
use mathlib.Core.List.Perm
use attendance_tracker.Prelude.{
  ℕ, zero, suc, ◌+◌, ◌*◌, ◌≤◌, ◌≡◌, refl, sym, ap, ◌∙◌, List, [], ◌∷◌, ◌++◌, map, length, take,
  drop, count, select_where, arith, Bool,
}
use attendance_tracker.Database.Rows.{Db, User}
use attendance_tracker.Database.Session.{request, Result, ok, err}
use attendance_tracker.Reports
use attendance_tracker.Reports.{Joined, AttendanceResponse, AttendanceQueryFilters}
use attendance_tracker.Reports.Ties.{IsUntied, same_answer}
use attendance_tracker.Reports.Order.{Orders, IsDescending, stamp, length-perm, map-IsDescending}

module _ {A : Type 0} where
  abbrev none_of : List A
  none_of = []

  take-nil : (n : ℕ) → take n [] ≡ none_of
  take-nil zero = refl
  take-nil (suc n) = refl

  drop-nil : (n : ℕ) → drop n [] ≡ none_of
  drop-nil zero = refl
  drop-nil (suc n) = refl

  take-add : (m n : ℕ) (xs : List A) → take (m + n) xs ≡ take m xs ++ take n (drop m xs)
  take-add zero n xs = ap (λ k. take k xs) (omega arith)
  take-add (suc m) n [] = take-nil (suc m + n) ∙ sym (take-nil n)
  take-add (suc m) n (x ∷ xs) =
      let e : suc m + n ≡ suc (m + n) = omega arith in
      ap (λ k. take k (x ∷ xs)) e ∙ ap (λ ys. x ∷ ys) (take-add m n xs)

  pub take_all : (n : ℕ) (xs : List A) → length xs ≤ n → take n xs ≡ xs
  take_all n [] h = take-nil n
  take_all zero (x ∷ xs) h = absurd (ground (arith, h))
  take_all (suc n) (x ∷ xs) h = ap (λ ys. x ∷ ys) (take_all n xs (ground (arith, h)))

  pub length-select_where : (p : A → Bool) (xs : List A) → length (select_where p xs) ≡ count p xs
  length-select_where p [] = refl
  length-select_where p (x ∷ xs) = ground (arith, length-select_where p xs)

map-append : {A B : Type 0} (f : A → B) (xs ys : List A) → map f (xs ++ ys) ≡ map f xs ++ map f ys
map-append f [] ys = refl
map-append f (x ∷ xs) ys = ap (λ zs. f x ∷ zs) (map-append f xs ys)

length-map : {A B : Type 0} (f : A → B) (xs : List A) → length (map f xs) ≡ length xs
length-map f [] = refl
length-map f (x ∷ xs) = ap suc (length-map f xs)

-- the records of an answer
abbrev pub records_of : Result Reports.AttendanceListResponse → List AttendanceResponse
records_of (ok r) = r.records
records_of (err f) = []

abbrev pub total_of : Result Reports.AttendanceListResponse → ℕ
total_of (ok r) = r.total
total_of (err f) = 0

-- `newest_first n` is the order of the query for page `n`; each query may order ties anew
module _ (newest_first : ℕ → List Joined → List Joined) (filters : AttendanceQueryFilters)
    (user : User) (db : Db) where
  -- the answer for page `n`
  abbrev pub page_of : ℕ → Result Reports.AttendanceListResponse
  page_of n =
      (request (Reports.query_attendance (newest_first n) (record filters { page = n }) user) db).0

  -- the records of the pages 1 to `n`, one after another
  abbrev pub pages : ℕ → List AttendanceResponse
  pages zero = []
  pages (suc n) = pages n ++ records_of (page_of (suc n))

  -- the rows of the requester's organization that meet the filters, as the table has them
  abbrev pub listed : List Joined
  listed = select_where (Reports.is_listed user filters) (Reports.joined db)

  abbrev pub response : Joined → AttendanceResponse
  response = Reports.row_to_response (Reports.dept_name_map user.organization_id db)

  page_total : (k : ℕ) → total_of (page_of k) ≡ length listed
  unfolding request Reports.query_attendance
  page_total k = sym (length-select_where (Reports.is_listed user filters) (Reports.joined db))

  response-stamp : (r : Joined) → (response r).timestamp ≡ stamp r
  unfolding Reports.row_to_response
  response-stamp (a, u) = refl

  page_records :
      (n : ℕ)
      → records_of (page_of (suc n))
        ≡ map response
            (take filters.page_size (drop (n * filters.page_size) (newest_first (suc n) listed)))
  unfolding request Reports.query_attendance Reports.is_listed Reports.meets_filters
  page_records n =
      ap
        (λ k.
          map response
            (take filters.page_size (drop (k * filters.page_size) (newest_first (suc n) listed))))
        (omega arith)

  pages-take :
      (n : ℕ)
      → ((k : ℕ) → newest_first k listed ≡ newest_first 0 listed)
      → pages n ≡ map response (take (n * filters.page_size) (newest_first 0 listed))
  pages-take zero agree =
      let e : 0 ≡ 0 * filters.page_size = omega arith in
      ap (λ k. map response (take k (newest_first 0 listed))) e
  pages-take (suc n) agree =
      let size = filters.page_size in
      let rows = newest_first 0 listed in
      ap (λ xs. xs ++ records_of (page_of (suc n))) (pages-take n agree)
      ∙ ap (λ xs. map response (take (n * size) rows) ++ xs)
          (page_records n ∙ ap (λ r. map response (take size (drop (n * size) r))) (agree (suc n)))
      ∙ sym (map-append response (take (n * size) rows) (take size (drop (n * size) rows)))
      ∙ ap (map response) (sym (take-add (n * size) size rows))
      ∙ ap (λ k. map response (take k rows)) (ground arith)

  -- Where no two of the rows of the requester's organization that meet the filters have one
  -- timestamp, and each page's query orders by descending timestamp: the pages that are enough to
  -- hold the total number taken together are those rows, each once, and newest first; the total
  -- that each page reports is their number. (Rows with one timestamp may come in another order in
  -- each query, and nothing is said of them.)
  pub query_attendance-pages :
      (n : ℕ)
      → ((k : ℕ) → Orders (newest_first k))
      → IsUntied listed
      → length listed ≤ n * filters.page_size
      → Perm (pages n) (map response listed)
        × IsDescending AttendanceResponse.timestamp (pages n)
        × ((k : ℕ) → total_of (page_of k) ≡ length (pages n))
  query_attendance-pages n orders untied enough =
      let agree : (k : ℕ) → newest_first k listed ≡ newest_first 0 listed =
        λ k. same_answer (newest_first k) (newest_first 0) listed (orders k) (orders 0) untied in
      let order = orders 0 in
      let whole : pages n ≡ map response (newest_first 0 listed) =
        pages-take n agree
        ∙ ap (map response) (
            take_all (n * filters.page_size) (newest_first 0 listed)
              (rw (length-perm (order.arranged listed)) enough)) in
      (
        rw whole (Perm.map response (order.arranged listed)),
        rw whole (
            map-IsDescending response stamp AttendanceResponse.timestamp response-stamp
              (newest_first 0 listed) (order.ordered listed)),
        λ k.
            page_total k
            ∙ sym (length-perm (order.arranged listed))
            ∙ sym (length-map response (newest_first 0 listed))
            ∙ ap length (sym whole),
      )
