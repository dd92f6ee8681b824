-- ===== src/Passwords.antt =====
-- src/utils/security.py, the password part.
pub mod Strength
use attendance_tracker.Prelude.{
  ℕ, zero, suc, ◌+◌, ◌≤◌, String, Text, Option, none, some, Bool, true, false, not, ◌&&◌, ◌||◌,
  List, [], ◌∷◌, ◌++◌, ltb, leb, ◌==◌, if◌then◌else◌, any, length, utf8_length, codes,
}
use attendance_tracker.Database.Session.{Failure, internal, Result, ok, err}
use attendance_tracker.Platform.{Platform}

abbrev pub bcrypt_max_bytes : ℕ
bcrypt_max_bytes = 72

-- "!@#$%^&*()-_=+[]{}|;:,.<>?"
abbrev pub special_chars : Text
special_chars = codes "!@#$%^&*()-_=+[]{}|;:,.<>?"

abbrev pub is_special : ℕ → Bool
is_special c = any (λ s. s == c) special_chars

-- an empty password or hash is refused before bcrypt is called; a stored hash is never empty
unfoldable pub verify_password : Platform → Text → ℕ → Bool
verify_password p [] hashed = false
verify_password p (c ∷ cs) hashed = p.checkpw (c ∷ cs) hashed

abbrev pub hash_too_long : String
hash_too_long = "Password must be at most 72 bytes (bcrypt limit)"

-- none is the `ValueError`
unfoldable pub get_password_hash : Platform → ℕ → Text → Option ℕ
get_password_hash p salt password =
    if ltb bcrypt_max_bytes (utf8_length password) then none else some (p.hashpw password salt)

abbrev pub bit : Bool → ℕ
bit true = 1
bit false = 0

-- `sum(checks)`
abbrev pub classes_passed : Platform → Text → ℕ
classes_passed p password =
    bit (any p.is_upper password)
    + bit (any p.is_lower password)
    + bit (any p.is_digit password)
    + bit (any is_special password)

abbrev pub too_short : String
too_short = "Password must be at least 8 characters long"

abbrev pub too_plain : String
too_plain = "Password must contain at least 3 of: uppercase, lowercase, digit, special character"

unfoldable pub validate_password_strength : Platform → Text → Bool × String
validate_password_strength p password =
    if ltb (length password) 8
    then (false, too_short)
    else if ltb (classes_passed p password) 3
    then (false, too_plain)
    else (true, "Password is strong")

pub record PasswordValidator : Type 0 where
  pub min_length : ℕ
  pub require_upper : Bool
  pub require_lower : Bool
  pub require_digit : Bool
  pub require_special : Bool
  pub max_repeating : ℕ

abbrev pub default_validator : PasswordValidator
default_validator = record {
  min_length = 8;
  require_upper = true;
  require_lower = true;
  require_digit = true;
  require_special = false;
  max_repeating = 3;
}

-- The messages of `validate`, one constructor each.
pub data Complaint : Type 0 where
  short no_upper no_lower no_digit no_special_char too_many_bytes repeating : Complaint

-- The loop over `i` in `range(1, len(password))`, from the character before `i` and the length of
-- the run that ends there; true where it appends the message and breaks.
pub repeats : ℕ → ℕ → ℕ → Text → Bool
repeats limit run before [] = false
repeats limit run before (c ∷ rest) =
    let run' = if c == before then run + 1 else 1 in
    let later = repeats limit run' c rest in if leb limit run' then true else later

abbrev pub has_run : ℕ → Text → Bool
has_run limit [] = false
has_run limit (c ∷ rest) = repeats limit 1 c rest

abbrev pub complain : Bool → Complaint → List Complaint
complain true e = e ∷ []
complain false e = []

unfoldable pub validate : Platform → PasswordValidator → Text → List Complaint
unfolding repeats
validate p v password =
    complain (ltb (length password) v.min_length) short
    ++ (complain (v.require_upper && not (any p.is_upper password)) no_upper
        ++ (complain (v.require_lower && not (any p.is_lower password)) no_lower
            ++ (complain (v.require_digit && not (any p.is_digit password)) no_digit
                ++ (complain (v.require_special && not (any is_special password)) no_special_char
                    ++ (complain (ltb bcrypt_max_bytes (utf8_length password)) too_many_bytes
                        ++ complain (ltb 0 v.max_repeating && has_run v.max_repeating password)
                            repeating)))))
