-- ===== src/Passwords/Strength.antt =====
-- What the two password checks accept.
use attendance_tracker.Prelude.{ℕ, ◌≡◌, ◌≢◌, Text, none, true, [], arith}
use attendance_tracker.Platform.{Platform}
use attendance_tracker.Passwords

-- A password that the validator with its default rules accepts also passes the strength check of
-- the routes, and can be hashed.
pub validate-strong :
    (p : Platform) (salt : ℕ) (password : Text)
    → Passwords.validate p Passwords.default_validator password ≡ []
    → ((Passwords.validate_password_strength p password).0 ≡ true)
      × (Passwords.get_password_hash p salt password ≢ none)
unfolding Passwords.validate Passwords.validate_password_strength Passwords.get_password_hash
validate-strong p salt password h = (ground (arith, h), λ e. ground (arith, h, e))
