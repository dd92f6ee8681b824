-- ===== src/Export/Safety.antt =====
-- What a sanitized cell can hold.
use attendance_tracker.Prelude.{
  ◌≡◌, refl, Text, Option, none, some, false, not, [], ◌∷◌, All, select_where, arith, Bool-cases,
  inl, inr,
}
use attendance_tracker.Export

-- no formula, and no control character
abbrev pub IsSafe : Text → Type 0
IsSafe s = (Export.is_formula s ≡ false) × All (λ c. Export.is_control c ≡ false) s

select_where-All :
    (s : Text)
    → All (λ c. Export.is_control c ≡ false) (select_where (λ c. not (Export.is_control c)) s)
select_where-All [] = tt
select_where-All (c ∷ cs) = elim (Bool-cases (Export.is_control c)) [
  | inl e ↦ rw e (select_where-All cs)
  | inr e ↦ rw e (e, select_where-All cs)
]

quote_formula-IsSafe :
    (s : Text) → All (λ c. Export.is_control c ≡ false) s → IsSafe (Export.quote_formula s)
quote_formula-IsSafe s h = elim (Bool-cases (Export.is_formula s)) [
  | inl e ↦ rw e (refl, (refl, h))
  | inr e ↦ rw e (e, h)
]

pub sanitize_cell-IsSafe : (value : Option Text) → IsSafe (Export.sanitize_cell value)
unfolding Export.sanitize_cell
sanitize_cell-IsSafe none = (refl, tt)
sanitize_cell-IsSafe (some s) = quote_formula-IsSafe _ (select_where-All s)

select_where_lem :
    (s : Text)
    → All (λ c. Export.is_control c ≡ false) s
    → select_where (λ c. not (Export.is_control c)) s ≡ s
select_where_lem [] h = refl
select_where_lem (c ∷ cs) h = ground (arith, h.0, select_where_lem cs h.1)

-- Every cell is safe after sanitizing: it does not begin as a formula and has no control
-- character. A cell that is safe already stays as it is, so sanitizing twice changes nothing more.
pub sanitize_cell_lem :
    (value : Option Text)
    → IsSafe (Export.sanitize_cell value)
      × ((s : Text) → IsSafe s → Export.sanitize_cell (some s) ≡ s)
      × (Export.sanitize_cell (some (Export.sanitize_cell value)) ≡ Export.sanitize_cell value)
unfolding Export.sanitize_cell
sanitize_cell_lem value =
    let keeps : (s : Text) → IsSafe s → Export.sanitize_cell (some s) ≡ s =
      λ s h. ground (arith, h.0, select_where_lem s h.1) in
    let safe = sanitize_cell-IsSafe value in (safe, keeps, keeps (Export.sanitize_cell value) safe)
