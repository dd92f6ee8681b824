-- ===== src/Dashboard/Grouping.antt =====
-- Group queries that are read by their key, and sums over consecutive keys.
use attendance_tracker.Prelude.{
  ℕ, zero, suc, ◌+◌, ◌≡◌, refl, sym, ap, ◌∙◌, Bool, true, false, ◌&&◌, List, [], ◌∷◌, any, ◌==◌,
  ==_iff, leb, ltb, count, select_where, if◌then◌else◌, Bool-cases, inl, inr, arith, subst,
}
use attendance_tracker.Dashboard

abbrev pub among : ℕ → List ℕ → Bool
among k keys = any (λ j. j == k) keys

among-with_key :
    (k j : ℕ) (keys : List ℕ)
    → among k (Dashboard.with_key j keys) ≡ (if j == k then true else among k keys)
unfolding Dashboard.with_key
among-with_key k j keys = elim (Bool-cases (among j keys)) [
  | inr e ↦ ground (arith, e)
  | inl e ↦ elim (Bool-cases (j == k)) [
    | inl f ↦
        let same : among k keys ≡ true = subst (λ i. among i keys ≡ true) ((==_iff j k).0 f) e in
        ground (arith, e, f, same)
    | inr f ↦ ground (arith, e, f)
  ]
]

module _ {R V : Type 0} (key : R → ℕ) (value : List R → V) where
  -- the rows of the key `k`
  abbrev pub of_key : ℕ → List R → List R
  of_key k rows = select_where (λ r. key r == k) rows

  get_groups :
      (default : V) (k : ℕ) (rows : List R) (keys : List ℕ)
      → Dashboard.get_group default k (Dashboard.groups key value rows keys)
        ≡ (if among k keys then value (of_key k rows) else default)
  unfolding Dashboard.groups
  get_groups default k rows [] = refl
  get_groups default k rows (j ∷ keys) = elim (Bool-cases (j == k)) [
    | inl e ↦ ground (arith, e, ap (λ i. value (of_key i rows)) ((==_iff j k).0 e))
    | inr e ↦ ground (arith, e, get_groups default k rows keys)
  ]

  no_rows :
      (k : ℕ) (rows : List R) → among k (Dashboard.keys_of key rows) ≡ false → of_key k rows ≡ []
  unfolding Dashboard.keys_of
  no_rows k [] h = refl
  no_rows k (r ∷ rows) h =
      ground (arith, h, among-with_key k (key r) (Dashboard.keys_of key rows), no_rows k rows)

  -- A group query read at a key is the aggregate over the rows of the key.
  pub get_group-group_by :
      (default : V) (k : ℕ) (rows : List R)
      → value [] ≡ default
      → Dashboard.get_group default k (Dashboard.group_by key value rows) ≡ value (of_key k rows)
  unfolding Dashboard.group_by
  get_group-group_by default k rows empty =
      get_groups default k rows (Dashboard.keys_of key rows)
      ∙ (elim (Bool-cases (among k (Dashboard.keys_of key rows))) [
        | inl e ↦ ground (arith, e)
        | inr e ↦ ground (arith, e, empty, ap value (no_rows k rows e))
      ])

module _ {R : Type 0} (key : R → ℕ) where
  -- a key of the range of `n` keys from `a` on
  abbrev pub in_range : ℕ → ℕ → R → Bool
  in_range a n r = leb a (key r) && ltb (key r) (a + n)

  count_range :
      (a n : ℕ) (rows : List R)
      → count (in_range a (suc n)) rows
        ≡ count (λ r. key r == a) rows + count (in_range (a + 1) n) rows
  count_range a n [] = omega arith
  count_range a n (r ∷ rows) = ground (arith, count_range a n rows)

  count_no_range : (a : ℕ) (rows : List R) → count (in_range a 0) rows ≡ 0
  count_no_range a [] = refl
  count_no_range a (r ∷ rows) = ground (arith, count_no_range a rows)

  -- the rows of `n` keys from `a` on, added up
  abbrev pub sum_keys : ℕ → ℕ → List R → ℕ
  sum_keys a zero rows = 0
  sum_keys a (suc n) rows = count (λ r. key r == a) rows + sum_keys (a + 1) n rows

  pub sum_keys_lem : (a n : ℕ) (rows : List R) → sum_keys a n rows ≡ count (in_range a n) rows
  sum_keys_lem a zero rows = sym (count_no_range a rows)
  sum_keys_lem a (suc n) rows = omega (arith, sum_keys_lem (a + 1) n rows, count_range a n rows)

module _ {R : Type 0} (p q : R → Bool) where
  -- a condition that all selected rows meet
  pub count-select_where :
      (rows : List R)
      → ((r : R) → p r ≡ true → q r ≡ true)
      → count q (select_where p rows) ≡ count p rows
  count-select_where [] h = refl
  count-select_where (r ∷ rows) h = elim (Bool-cases (p r)) [
    | inl e ↦ ground (arith, e, h r e, count-select_where rows h)
    | inr e ↦ ground (arith, e, count-select_where rows h)
  ]

  pub select_where-select_where :
      (rows : List R) → select_where q (select_where p rows) ≡ select_where (λ r. p r && q r) rows
  select_where-select_where [] = refl
  select_where-select_where (r ∷ rows) = ground (arith, select_where-select_where rows)
