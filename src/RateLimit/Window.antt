-- ===== src/RateLimit/Window.antt =====
-- How many requests of one client the counter lets pass in a window.
use attendance_tracker.Prelude.{
  ℕ, ◌+◌, ◌≡◌, ◌≤◌, ◌<◌, refl, none, some, Bool, true, false, not, ◌&&◌, List, [], ◌∷◌,
  if◌then◌else◌, text_eq_iff, All, max, arith, Bool-cases, Option-cases, inl, inr, ap, sym, subst,
}
use attendance_tracker.Platform.{Platform, seconds}
use attendance_tracker.RateLimit

key_eq_refl : (a : RateLimit.Key) → RateLimit.key_eq a a ≡ true
unfolding RateLimit.key_eq
key_eq_refl a = ground (arith, (text_eq_iff a.client_ip a.client_ip).1 refl)

scope_eq_sound : (a b : RateLimit.Scope) → RateLimit.scope_eq a b ≡ true → a ≡ b
scope_eq_sound a b h = ground (arith, h)

key_eq_sound : (a b : RateLimit.Key) → RateLimit.key_eq a b ≡ true → a ≡ b
unfolding RateLimit.key_eq
key_eq_sound a b h =
    let i : a.client_ip ≡ b.client_ip =
      (text_eq_iff a.client_ip b.client_ip).0 (ground (arith, h)) in
    let s : a.scope ≡ b.scope = scope_eq_sound a.scope b.scope (ground (arith, h)) in
    let w : a.window_epoch ≡ b.window_epoch = ground (arith, h) in ground (arith, i, s, w)

count_of-set_count :
    (k key : RateLimit.Key) (n : ℕ) (l : List (RateLimit.Key × ℕ))
    → RateLimit.count_of k (RateLimit.set_count key n l)
      ≡ (if RateLimit.key_eq k key then n else RateLimit.count_of k l)
unfolding RateLimit.count_of RateLimit.set_count
count_of-set_count k key n [] = ground arith
count_of-set_count k key n ((x, m) ∷ l) = elim (Bool-cases (RateLimit.key_eq key x)) [
  | inl e ↦ ground (arith, e, ap (RateLimit.key_eq k) (key_eq_sound key x e))
  | inr e ↦ elim (Bool-cases (RateLimit.key_eq k key)) [
    | inl f ↦
        let g : RateLimit.key_eq k x ≡ false =
          subst (λ j. RateLimit.key_eq j x ≡ false) (sym (key_eq_sound k key f)) e in
        ground (arith, e, f, g, count_of-set_count k key n l)
    | inr f ↦ ground (arith, e, f, count_of-set_count k key n l)
  ]
]

-- the request is not refused
abbrev pub is_passed : RateLimit.Outcome → Bool
is_passed RateLimit.unlimited = true
is_passed (RateLimit.passed limit left) = true
is_passed (RateLimit.too_many_requests s) = false

module _ (p : Platform) (st : RateLimit.RateSettings) (k : RateLimit.Key) where
  -- the limit is on
  abbrev pub is_on : Bool
  is_on = st.enabled && not (st.enabled_in_production_only && not st.is_production)

  -- the request counts under the key
  abbrev pub has_key : ℕ → RateLimit.HttpRequest → Bool
  has_key now r = elim (RateLimit.resolve_scope r.path) [
    | none ↦ false
    | some s ↦ RateLimit.key_eq k (RateLimit.counter_key p now s r)
  ]

  -- how many of the requests, in their order, pass the limit under the key
  abbrev pub let_through : List (ℕ × RateLimit.HttpRequest) → RateLimit.MemoryCounter → ℕ
  let_through [] c = 0
  let_through ((now, r) ∷ rest) c =
      (if has_key now r && is_passed (RateLimit.dispatch p st now r c).0 then 1 else 0)
      + let_through rest (RateLimit.dispatch p st now r c).1

  -- One request: the window goes on, the counter of the key does not fall, and it grows and stays
  -- in the limit where the request passes under the key.
  record Counted (c c' : RateLimit.MemoryCounter) (hit : Bool) : Type 0 where
    started : c'.window_started_at ≡ c.window_started_at
    grows : RateLimit.count_of k c.counters ≤ RateLimit.count_of k c'.counters
    counted : hit ≡ true → RateLimit.count_of k c'.counters ≡ RateLimit.count_of k c.counters + 1
    in_limit : hit ≡ true → RateLimit.count_of k c'.counters ≤ RateLimit.limit_for st k.scope

  dispatch-Counted :
      (now : ℕ) (r : RateLimit.HttpRequest) (c : RateLimit.MemoryCounter)
      → is_on ≡ true
      → now < c.window_started_at + seconds 60
      → Counted c
          (RateLimit.dispatch p st now r c).1
          (has_key now r && is_passed (RateLimit.dispatch p st now r c).0)
  unfolding RateLimit.dispatch RateLimit.incr
  dispatch-Counted now r c on early = elim (Option-cases (RateLimit.resolve_scope r.path)) [
    | inl e ↦ record {
      started = ground (arith, e);
      grows = ground (arith, e);
      counted = λ h. ground (arith, e, h);
      in_limit = λ h. ground (arith, e, h);
    }
    | inr (s, e) ↦
        let key = RateLimit.counter_key p now s r in
        let set = count_of-set_count k key (RateLimit.count_of key c.counters + 1) c.counters in
        elim (Bool-cases (RateLimit.key_eq k key)) [
          | inl f ↦
              let same : RateLimit.count_of key c.counters ≡ RateLimit.count_of k c.counters =
                ap (λ j. RateLimit.count_of j c.counters) (sym (key_eq_sound k key f)) in
              let limit : RateLimit.limit_for st s ≡ RateLimit.limit_for st k.scope =
                ap (λ (j : RateLimit.Key). RateLimit.limit_for st j.scope)
                  (sym (key_eq_sound k key f)) in
              record {
                started = ground (arith, e, on, early);
                grows = ground (arith, e, on, early, f, set, same);
                counted = λ h. ground (arith, e, on, early, f, set, same, h);
                in_limit = λ h. ground (arith, e, on, early, f, set, same, h, limit);
              }
          | inr f ↦ record {
            started = ground (arith, e, on, early);
            grows = ground (arith, e, on, early, f, set);
            counted = λ h. ground (arith, e, f, h);
            in_limit = λ h. ground (arith, e, f, h);
          }
        ]
  ]

  abbrev pub InWindow : RateLimit.MemoryCounter → List (ℕ × RateLimit.HttpRequest) → Type 0
  InWindow c = All (λ (now, r). now < c.window_started_at + seconds 60)

  -- A key of the counter is a client, a scope and an epoch, that is a minute of the clock. Where
  -- the limit is on: of any requests, whatever their keys, that come before the counter's own
  -- window of 60 seconds is over, at most as many are not refused under one key as the limit of its
  -- scope allows, less those that were counted before. A window of the counter may reach into two
  -- epochs, and each has a bound of its own; requests to a path without a scope have no key and are
  -- not counted.
  pub dispatch-limit :
      (requests : List (ℕ × RateLimit.HttpRequest)) (c : RateLimit.MemoryCounter)
      → is_on ≡ true
      → InWindow c requests
      → let_through requests c + RateLimit.count_of k c.counters
        ≤ max (RateLimit.limit_for st k.scope) (RateLimit.count_of k c.counters)
  dispatch-limit [] c on h = omega arith
  dispatch-limit ((now, r) ∷ rest) c on (early, later) =
      let one = dispatch-Counted now r c on early in
      let c' = (RateLimit.dispatch p st now r c).1 in
      let more = dispatch-limit rest c' on (
        subst (λ t. All (λ ((n, q) : ℕ × RateLimit.HttpRequest). n < t + seconds 60) rest)
          (sym one.started) later) in
      elim (Bool-cases (has_key now r && is_passed (RateLimit.dispatch p st now r c).0)) [
        | inl e ↦ rw e (omega (arith, more, one.counted e, one.in_limit e))
        | inr e ↦ rw e (omega (arith, more, one.grows))
      ]
