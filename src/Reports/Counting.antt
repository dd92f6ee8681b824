-- ===== src/Reports/Counting.antt =====
-- Group counts and distinct values, as the queries of Reports/Stats count them.
use attendance_tracker.Prelude.{
  ℕ, suc, ◌+◌, ◌≤◌, ◌≡◌, refl, ap, Bool, true, false, not, ◌&&◌, List, [], ◌∷◌, map, length, any,
  count, delete_where, select_where, ◌==◌, ==_iff, if◌then◌else◌, Bool-cases, inl, inr, arith,
}
use attendance_tracker.Database.Rows.{Db, Attendance}
use attendance_tracker.Reports.Stats
use attendance_tracker.Reports.Stats.{distinct, group_count, bump, genuine}

-- the sum of a group query's counts
abbrev pub sum : {K : Type 0} → List (K × ℕ) → ℕ
sum [] = 0
sum ((k, n) ∷ groups) = n + sum groups

module _ {K : Type 0} (eq : K → K → Bool) where
  sum-bump : (k : K) (groups : List (K × ℕ)) → sum (bump eq k groups) ≡ sum groups + 1
  unfolding bump
  sum-bump k [] = omega arith
  sum-bump k ((j, n) ∷ groups) = ground (arith, sum-bump k groups)

  pub sum-group_count : (ks : List K) → sum (group_count eq ks) ≡ length ks
  unfolding group_count
  sum-group_count [] = refl
  sum-group_count (k ∷ ks) = omega (arith, sum-bump k (group_count eq ks), sum-group_count ks)

abbrev pub has : ℕ → List ℕ → Bool
has x xs = any (λ y. y == x) xs

abbrev without : ℕ → List ℕ → List ℕ
without x xs = delete_where (λ y. y == x) xs

has-without : (x z : ℕ) (xs : List ℕ) → (z == x) ≡ false → has z (without x xs) ≡ has z xs
has-without x z [] ne = refl
has-without x z (y ∷ ys) ne = ground (arith, ne, has-without x z ys ne)

abbrev pub Subset : List ℕ → List ℕ → Type 0
Subset xs ys = (z : ℕ) → has z xs ≡ true → has z ys ≡ true

without_none : (x : ℕ) (xs : List ℕ) → has x xs ≡ false → without x xs ≡ xs
without_none x [] h = refl
without_none x (y ∷ ys) h = ground (arith, h, without_none x ys)

-- a value that is dropped everywhere takes one from the number of values, if it was there
distinct-without :
    (x : ℕ) (xs : List ℕ) → distinct xs ≡ (if has x xs then 1 else 0) + distinct (without x xs)
unfolding distinct
distinct-without x [] = omega arith
distinct-without x (y ∷ ys) = elim (Bool-cases (y == x)) [
  | inl e ↦
      let same : has y ys ≡ has x ys = ap (λ k. has k ys) ((==_iff y x).0 e) in
      ground (arith, e, same, distinct-without x ys, without_none x ys)
  | inr e ↦ ground (arith, e, has-without x y ys e, distinct-without x ys)
]

-- where all values of a list are among those of another, they are no more
pub distinct-Subset : (xs ys : List ℕ) → Subset xs ys → distinct xs ≤ distinct ys
unfolding distinct
distinct-Subset [] ys sub = omega arith
distinct-Subset (x ∷ xs) ys sub = elim (Bool-cases (has x xs)) [
  | inl e ↦
      let fewer = distinct-Subset xs ys (λ z h. sub z (ground (arith, h))) in
      ground (arith, e, fewer)
  | inr e ↦
      let smaller = distinct-Subset xs (without x ys) λ z h. elim (Bool-cases (z == x)) [
        | inl f ↦ absurd (ground (arith, e, h, ap (λ k. has k xs) ((==_iff z x).0 f)))
        | inr f ↦ rw (has-without x z ys f) (sub z (ground (arith, h)))
      ] in
      ground (arith, e, smaller, distinct-without x ys, sub x (ground arith))
]

pub distinct_le : (xs : List ℕ) → distinct xs ≤ length xs
unfolding distinct
distinct_le [] = omega arith
distinct_le (x ∷ xs) = ground (arith, distinct_le xs)

module _ (p q : Attendance → Bool) where
  pub count_split :
      (rows : List Attendance)
      → count (λ r. p r && q r) rows + count (λ r. p r && not (q r)) rows ≡ count p rows
  count_split [] = omega arith
  count_split (r ∷ rows) = ground (arith, count_split rows)

  pub has-user_ids :
      (z : ℕ) (rows : List Attendance)
      → has z (Stats.user_ids (select_where (λ r. p r && q r) rows)) ≡ true
      → has z (Stats.user_ids (select_where p rows)) ≡ true
  has-user_ids z [] h = h
  has-user_ids z (r ∷ rows) h = ground (arith, h, has-user_ids z rows)

pub length-map : {A B : Type 0} (f : A → B) (xs : List A) → length (map f xs) ≡ length xs
length-map f [] = refl
length-map f (x ∷ xs) = ap suc (length-map f xs)

pub length-names : (db : Db) (rows : List Attendance) → length (Stats.names db rows) ≤ length rows
unfolding Stats.names
length-names db [] = omega arith
length-names db (r ∷ rows) = ground (arith, length-names db rows)
