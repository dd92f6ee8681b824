-- ===== src/RateLimit.antt =====
-- src/api/middleware/rate_limit.py: the limit on requests, with the counter in memory that serves
-- without Redis. Instants are microseconds; `Inner` is what the application answers.
pub mod Window
use attendance_tracker.Prelude.{
  ℕ, ◌+◌, ◌-◌, ◌*◌, ◌/◌, ◌%◌, Text, Option, none, some, Bool, true, false, not, ◌&&◌, ◌||◌, List,
  [], ◌∷◌, ◌==◌, ltb, leb, if◌then◌else◌, text_eq, codes, find, update_where, is_some,
}
use attendance_tracker.Platform.{Platform, seconds}
use attendance_tracker.SignIn.{first_field}

abbrev pub window_seconds : ℕ
window_seconds = 60

pub data Scope : Type 0 where
  auth recognition general : Scope

abbrev pub scope_eq : Scope → Scope → Bool
scope_eq auth auth = true
scope_eq recognition recognition = true
scope_eq general general = true
scope_eq _ _ = false

-- `path.startswith(prefix)`
pub starts_with : Text → Text → Bool
starts_with [] path = true
starts_with (c ∷ cs) [] = false
starts_with (c ∷ cs) (x ∷ xs) = let rest = starts_with cs xs in (x == c) && rest

-- `_resolve_scope`
unfoldable pub resolve_scope : Text → Option Scope
unfolding starts_with
resolve_scope path =
    if not (starts_with (codes "/api/") path)
    then none
    else if starts_with (codes "/api/auth") path
    then some auth
    else if starts_with (codes "/api/recognize") path
    then some recognition
    else some general

-- `settings.rate_limit` and `settings.is_production`
pub record RateSettings : Type 0 where
  pub auth_requests_per_minute : ℕ
  pub recognition_requests_per_minute : ℕ
  pub requests_per_minute : ℕ
  pub enabled : Bool
  pub enabled_in_production_only : Bool
  pub is_production : Bool

-- `_limit_for`
abbrev pub limit_for : RateSettings → Scope → ℕ
limit_for st auth = st.auth_requests_per_minute
limit_for st recognition = st.recognition_requests_per_minute
limit_for st general = st.requests_per_minute

-- the parts of `f"ratelimit:{scope}:{client_ip}:{window_epoch}"`
pub record Key : Type 0 where
  pub scope : Scope
  pub client_ip : Text
  pub window_epoch : ℕ

unfoldable pub key_eq : Key → Key → Bool
unfolding text_eq
key_eq a b =
    scope_eq a.scope b.scope
    && (a.window_epoch == b.window_epoch)
    && text_eq a.client_ip b.client_ip

-- `_MemoryCounter`
pub record MemoryCounter : Type 0 where
  pub counters : List (Key × ℕ)
  pub window_started_at : ℕ

-- `self._counters.get(key, 0)`
unfoldable pub count_of : Key → List (Key × ℕ) → ℕ
unfolding key_eq
count_of key [] = 0
count_of key ((k, n) ∷ rest) = let later = count_of key rest in if key_eq key k then n else later

-- the dictionary with a key's counter set
unfoldable pub set_count : Key → ℕ → List (Key × ℕ) → List (Key × ℕ)
unfolding key_eq
set_count key n [] = (key, n) ∷ []
set_count key n ((k, m) ∷ rest) =
    let later = set_count key n rest in if key_eq key k then (k, n) ∷ rest else (k, m) ∷ later

-- the first lines of `incr`: a window that is over starts anew
abbrev pub current_window : ℕ → MemoryCounter → MemoryCounter
current_window now c =
    if leb (c.window_started_at + seconds window_seconds) now
    then record { counters = []; window_started_at = now }
    else c

-- `incr`, the count and the counters after it
unfoldable pub incr : ℕ → Key → MemoryCounter → ℕ × MemoryCounter
unfolding count_of set_count
incr now key c =
    let w = current_window now c in
    let n = count_of key w.counters + 1 in (n, record w { counters = set_count key n w.counters })

pub record Headers : Type 0 where
  pub forwarded : Option Text
  pub real_ip : Option Text
  pub host : Option Text

-- `client_ip_from_request`; a header that is absent or empty is none
unfoldable pub client_ip_from_request : Platform → Headers → Text
unfolding first_field
client_ip_from_request p h = elim h.forwarded [
  | some f ↦ p.strip (first_field f)
  | none ↦ elim h.real_ip [
    | some r ↦ p.strip r
    | none ↦ elim h.host [ some a ↦ a | none ↦ codes "unknown" ]
  ]
]

pub record HttpRequest : Type 0 where
  pub path : Text
  pub headers : Headers

-- A request goes on to the application, without or with the two headers, or is refused.
pub data Outcome : Type 0 where
  unlimited : Outcome
  -- the limit, and what remains of it
  passed : ℕ → ℕ → Outcome
  -- the seconds of `Retry-After`
  too_many_requests : ℕ → Outcome

abbrev pub counter_key : Platform → ℕ → Scope → HttpRequest → Key
counter_key p now scope request = record {
  scope = scope;
  client_ip = client_ip_from_request p request.headers;
  window_epoch = now / seconds window_seconds;
}

abbrev pub answer : ℕ → ℕ → ℕ → Outcome
answer now limit count =
    if ltb limit count
    then too_many_requests (window_seconds - now / seconds 1 % window_seconds)
    else passed limit (limit - count)

abbrev pub limited :
    Platform → RateSettings → ℕ → HttpRequest → Scope → MemoryCounter → Outcome × MemoryCounter
limited p st now request scope c =
    let (count, c') = incr now (counter_key p now scope request) c in
    (answer now (limit_for st scope) count, c')

-- `dispatch`, where Redis is not available
unfoldable pub dispatch :
    Platform → RateSettings → ℕ → HttpRequest → MemoryCounter → Outcome × MemoryCounter
unfolding resolve_scope client_ip_from_request incr
dispatch p st now request c = elim (resolve_scope request.path) [
  | none ↦ (unlimited, c)
  | some scope ↦
      if not st.enabled || (st.enabled_in_production_only && not st.is_production)
      then (unlimited, c)
      else limited p st now request scope c
]
