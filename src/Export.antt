-- ===== src/Export.antt =====
-- src/services/export_safety.py, on values that `str` has made a text; none is Python's None.
pub mod Safety
use attendance_tracker.Prelude.{
  ℕ, Text, Option, none, some, Bool, true, false, not, ◌&&◌, ◌||◌, List, [], ◌∷◌, ◌==◌, leb,
  if◌then◌else◌, any, select_where, codes,
}

-- `_FORMULA_PREFIXES`: = + - @, tab and carriage return
abbrev pub formula_prefixes : Text
formula_prefixes = b'=' ∷ b'+' ∷ b'-' ∷ b'@' ∷ 9 ∷ 13 ∷ []

-- `_CONTROL_CHARS`
abbrev pub is_control : ℕ → Bool
is_control c = leb c 8 || c == 11 || c == 12 || (leb 14 c && leb c 31) || c == 127

abbrev pub is_formula_prefix : ℕ → Bool
is_formula_prefix c = any (λ x. x == c) formula_prefixes

-- `text.startswith(_FORMULA_PREFIXES)`
abbrev pub is_formula : Text → Bool
is_formula [] = false
is_formula (c ∷ cs) = is_formula_prefix c

abbrev pub quote_formula : Text → Text
quote_formula s = if is_formula s then b'\'' ∷ s else s

unfoldable pub sanitize_cell : Option Text → Text
sanitize_cell none = []
sanitize_cell (some value) = quote_formula (select_where (λ c. not (is_control c)) value)

unfoldable pub sanitize_row : {K : Type 0} → List (K × Option Text) → List (K × Text)
unfolding sanitize_cell
sanitize_row [] = []
sanitize_row ((k, v) ∷ rest) = (k, sanitize_cell v) ∷ sanitize_row rest
