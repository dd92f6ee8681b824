-- ===== src/Prelude/Queries.antt =====
-- Laws of the table queries of Prelude/Lists.antt.
use Prim.Native.Nat.{ℕ, ◌+◌}
use mathlib.Core.Path.{ap, ◌≡◌, refl, subst}
use mathlib.Core.Bool.{Bool, true, false, ◌&&◌}
use mathlib.Core.Option.{Option, none, some}
use mathlib.Core.List.{List, [], ◌∷◌, ◌++◌}
use mathlib.Core.Logic.{◌≢◌, ◌⊎◌, inl, inr}
use native.Mathlib.Omega.{arith}
use attendance_tracker.Prelude.Tests.{if◌then◌else◌, Bool-cases, ◌==◌, ==_iff}
use attendance_tracker.Prelude.Lists.{find, count, update_where, delete_where, All, length}

module _ {ℓ} {A : Type ℓ} where
  -- the row after an update
  abbrev pub updated : (A → Bool) → (A → A) → A → A
  updated q f x = if q x then f x else x

  abbrev pub map_option : (A → A) → Option A → Option A
  map_option f none = none
  map_option f (some x) = some (f x)

  abbrev pub or_else : Option A → Option A → Option A
  or_else none o = o
  or_else (some x) o = some x

  pub find-append :
      (p : A → Bool) (xs ys : List A) → find p (xs ++ ys) ≡ or_else (find p xs) (find p ys)
  find-append p [] ys = refl
  find-append p (x ∷ xs) ys = ground (arith, find-append p xs ys)

  pub find_snoc_cases :
      (p : A → Bool) (xs : List A) (y x : A)
      → find p (xs ++ y ∷ []) ≡ some x
      → (find p xs ≡ some x) ⊎ (y ≡ x)
  find_snoc_cases p xs y x h = ground (arith, find-append p xs (y ∷ []))

  pub find_holds : (p : A → Bool) (xs : List A) (x : A) → find p xs ≡ some x → p x ≡ true
  find_holds p [] x h = ground arith
  find_holds p (y ∷ xs) x h = elim (Bool-cases (p y)) [
    | inl e ↦ ground arith
    | inr e ↦ find_holds p xs x (rw e at h)
  ]

  -- An update that keeps the key of the lookup changes the found row only.
  pub find-update_where :
      (p q : A → Bool) (f : A → A) (xs : List A)
      → ((x : A) → p (f x) ≡ p x)
      → find p (update_where q f xs) ≡ map_option (updated q f) (find p xs)
  find-update_where p q f [] keep = refl
  find-update_where p q f (x ∷ xs) keep = ground (arith, keep x, find-update_where p q f xs keep)

  -- The same, where the update keeps the key of the rows that it touches.
  pub find-update_where_on :
      (p q : A → Bool) (f : A → A) (xs : List A)
      → ((x : A) → q x ≡ true → p (f x) ≡ p x)
      → find p (update_where q f xs) ≡ map_option (updated q f) (find p xs)
  find-update_where_on p q f [] keep = refl
  find-update_where_on p q f (x ∷ xs) keep = elim (Bool-cases (q x)) [
    | inl e ↦ ground (arith, e, keep x e, find-update_where_on p q f xs keep)
    | inr e ↦ ground (arith, e, find-update_where_on p q f xs keep)
  ]

  pub find_and :
      (p q : A → Bool) (xs : List A) (x : A)
      → find p xs ≡ some x
      → q x ≡ true
      → find (λ y. p y && q y) xs ≡ some x
  find_and p q [] x h ok = ground arith
  find_and p q (y ∷ ys) x h ok = ground (arith, find_and p q ys x)

  pub All_find {κ} :
      (P : A → Type κ) (p : A → Bool) (xs : List A) (x : A) → All P xs → find p xs ≡ some x → P x
  All_find P p [] x all h = ground arith
  All_find P p (y ∷ xs) x all h = elim (Bool-cases (p y)) [
    | inl e ↦ ground arith
    | inr e ↦ All_find P p xs x all.1 (rw e at h)
  ]

  pub All-append {κ} : (P : A → Type κ) (xs ys : List A) → All P xs → All P ys → All P (xs ++ ys)
  All-append P [] ys hx hy = hy
  All-append P (x ∷ xs) ys hx hy = (hx.0, All-append P xs ys hx.1 hy)

  pub All-map {κ ι} :
      (P : A → Type κ) (Q : A → Type ι) (xs : List A) → ((x : A) → P x → Q x) → All P xs → All Q xs
  All-map P Q [] f h = tt
  All-map P Q (x ∷ xs) f h = (f x h.0, All-map P Q xs f h.1)

  pub All-every {κ} : (P : A → Type κ) (xs : List A) → ((x : A) → P x) → All P xs
  All-every P [] f = tt
  All-every P (x ∷ xs) f = (f x, All-every P xs f)

  pub All-update_where {κ ι} :
      (P : A → Type κ) (Q : A → Type ι) (q : A → Bool) (f : A → A) (xs : List A)
      → ((x : A) → P x → Q (updated q f x))
      → All P xs
      → All Q (update_where q f xs)
  All-update_where P Q q f [] step h = tt
  All-update_where P Q q f (x ∷ xs) step h = (step x h.0, All-update_where P Q q f xs step h.1)

  pub All-delete_where {κ} :
      (P : A → Type κ) (q : A → Bool) (xs : List A) → All P xs → All P (delete_where q xs)
  All-delete_where P q [] h = tt
  All-delete_where P q (x ∷ xs) h = elim (Bool-cases (q x)) [
    | inl e ↦ rw e (All-delete_where P q xs h.1)
    | inr e ↦ rw e (h.0, All-delete_where P q xs h.1)
  ]

  pub length-update_where :
      (q : A → Bool) (f : A → A) (xs : List A) → length (update_where q f xs) ≡ length xs
  length-update_where q f [] = refl
  length-update_where q f (x ∷ xs) = ground (arith, length-update_where q f xs)

  pub count-append : (p : A → Bool) (xs ys : List A) → count p (xs ++ ys) ≡ count p xs + count p ys
  count-append p [] ys = ground arith
  count-append p (x ∷ xs) ys = ground (arith, count-append p xs ys)

  -- An update that keeps what is counted keeps the number.
  pub count-update_where :
      (p q : A → Bool) (f : A → A) (xs : List A)
      → ((x : A) → p (f x) ≡ p x)
      → count p (update_where q f xs) ≡ count p xs
  count-update_where p q f [] keep = refl
  count-update_where p q f (x ∷ xs) keep = ground (arith, keep x, count-update_where p q f xs keep)

  pub count-update_where_zero :
      (p q : A → Bool) (f : A → A) (xs : List A)
      → ((x : A) → p (updated q f x) ≡ false)
      → count p (update_where q f xs) ≡ 0
  count-update_where_zero p q f [] gone = refl
  count-update_where_zero p q f (x ∷ xs) gone =
      ground (arith, gone x, count-update_where_zero p q f xs gone)

-- A primary key: no two rows share it.
abbrev pub Keyed {ℓ} : {A : Type ℓ} → (A → ℕ) → List A → Type 0
Keyed key [] = Unit
Keyed key (x ∷ xs) = (count (λ y. key y == key x) xs ≡ 0) × Keyed key xs

module _ {ℓ} {A : Type ℓ} where
  pub find-none : (p : A → Bool) (xs : List A) → count p xs ≡ 0 → find p xs ≡ none
  find-none p [] h = refl
  find-none p (x ∷ xs) h = ground (arith, find-none p xs)

  find_and_none :
      (p q : A → Bool) (xs : List A) → find p xs ≡ none → find (λ x. p x && q x) xs ≡ none
  find_and_none p q [] h = refl
  find_and_none p q (x ∷ xs) h = ground (arith, find_and_none p q xs)

  -- Under a primary key a lookup by the key and a further condition is the lookup by the key.
  pub find_narrow :
      (key : A → ℕ) (k : ℕ) (q : A → Bool) (xs : List A) (x : A)
      → Keyed key xs
      → find (λ y. key y == k && q y) xs ≡ some x
      → (find (λ y. key y == k) xs ≡ some x) × (q x ≡ true)
  find_narrow key k q [] x u h = ground arith
  find_narrow key k q (y ∷ ys) x u h = elim (Bool-cases (key y == k)) [
    | inr e ↦ ground (arith, find_narrow key k q ys x u.1)
    | inl e ↦ elim (Bool-cases (q y)) [
      | inl f ↦ ground arith
      | inr f ↦
          let same : find (λ z. key z == k) ys ≡ none =
            subst (λ j. find (λ z. key z == j) ys ≡ none) ((==_iff (key y) k).0 e)
              (find-none (λ z. key z == key y) ys u.0) in
          absurd (ground (arith, h, e, f, find_and_none (λ z. key z == k) q ys same))
    ]
  ]

  -- The row that a condition finds is the row of its key.
  pub find_key :
      (key : A → ℕ) (p : A → Bool) (xs : List A) (x : A)
      → Keyed key xs
      → find p xs ≡ some x
      → find (λ y. key y == key x) xs ≡ some x
  find_key key p [] x u h = h
  find_key key p (y ∷ ys) x u h = elim (Bool-cases (p y)) [
    | inl e ↦
        let same : y ≡ x = ground (arith, e, h) in
        ground (arith, ap some same, (==_iff (key y) (key x)).1 (ap key same))
    | inr e ↦
        let later = find_key key p ys x u.1 (ground (arith, e, h)) in
        elim (Bool-cases (key y == key x)) [
          | inr f ↦ ground (arith, f, later)
          | inl f ↦
              let none_left : find (λ z. key z == key x) ys ≡ none =
                subst (λ k. find (λ z. key z == k) ys ≡ none) ((==_iff (key y) (key x)).0 f)
                  (find-none (λ z. key z == key y) ys u.0) in
              absurd (ground (arith, later, none_left))
        ]
  ]

  pub find_weaken :
      (p q : A → Bool) (xs : List A) (x : A) → find (λ y. p y && q y) xs ≡ some x → count p xs ≢ 0
  find_weaken p q xs x h z = ground (arith, h, find_and_none p q xs (find-none p xs z))

  -- A row that is put in the place of the rows of its key is the one found there.
  pub find_replaced :
      (p : A → Bool) (u : A) (xs : List A)
      → p u ≡ true
      → count p xs ≢ 0
      → find p (update_where p (λ x. u) xs) ≡ some u
  find_replaced p u [] own some_there = absurd (some_there refl)
  find_replaced p u (x ∷ xs) own some_there =
      ground (arith, own, some_there, find_replaced p u xs own)

  pub All-of_count : (p : A → Bool) (xs : List A) → count p xs ≡ 0 → All (λ x. p x ≡ false) xs
  All-of_count p [] h = tt
  All-of_count p (x ∷ xs) h = elim (Bool-cases (p x)) [
    | inl e ↦ absurd (ground (arith, e, h))
    | inr e ↦ (e, All-of_count p xs (ground (arith, e, h)))
  ]

  pub All-delete : (p : A → Bool) (xs : List A) → All (λ x. p x ≡ false) (delete_where p xs)
  All-delete p [] = tt
  All-delete p (x ∷ xs) = elim (Bool-cases (p x)) [
    | inl e ↦ rw e (All-delete p xs)
    | inr e ↦ rw e (e, All-delete p xs)
  ]
