-- ===== src/Reports/Order.antt =====
-- What `ORDER BY timestamp DESC` promises, and an order that keeps the table's among equals.
use mathlib.Core.Logic.{∥∥₁_elim}
use native.Mathlib.Nat.{ℕ_set}
use mathlib.Core.List.{Perm, Permᴰ}
use mathlib.Core.List.Perm
use attendance_tracker.Prelude.{
  ℕ, ◌≤◌, ◌≡◌, refl, sym, ap, ◌+◌, ◌∙◌, inl, inr, List, [], ◌∷◌, map, length, leb, if◌then◌else◌,
  All, All-map, Bool-cases, arith, ⊤,
}
use attendance_tracker.Reports.{Joined}

-- each row is followed by rows that are not newer
abbrev pub IsDescending {ℓ} : {A : Type ℓ} → (A → ℕ) → List A → Type 0
IsDescending time [] = ⊤
IsDescending time (x ∷ xs) = All (λ y. time y ≤ time x) xs × IsDescending time xs

abbrev pub stamp : Joined → ℕ
stamp r = r.0.timestamp

pub record Orders (newest_first : List Joined → List Joined) : Type 0 where
  pub arranged : (rows : List Joined) → Perm (newest_first rows) rows
  pub ordered : (rows : List Joined) → IsDescending stamp (newest_first rows)

-- a sum over the rows does not depend on their order
module _ {A : Type 0} (weight : A → ℕ) where
  sum_of : List A → ℕ
  sum_of [] = 0
  sum_of (row ∷ rows) = weight row + sum_of rows

  reordered : {rows rows' : List A} → Permᴰ rows rows' → sum_of rows ≡ sum_of rows'
  unfolding sum_of
  reordered (Permᴰ.trans first second) = reordered first ∙ reordered second
  reordered (Permᴰ.swap e f) = omega (arith, ap weight e, ap weight f)
  reordered (Permᴰ.cons same rest) = omega (arith, ap weight same, reordered rest)
  reordered Permᴰ.nil = refl

number_of : {A : Type 0} (rows : List A) → sum_of (λ x. 1) rows ≡ length rows
unfolding sum_of
number_of [] = refl
number_of (row ∷ rows) = omega (arith, number_of rows)

pub length-perm : {A : Type 0} {rows rows' : List A} → Perm rows rows' → length rows ≡ length rows'
length-perm {A} {rows} {rows'} p =
    sym (number_of rows)
    ∙ ∥∥₁_elim p (ℕ_set (sum_of (λ x. 1) rows) (sum_of (λ x. 1) rows')) (reordered (λ x. 1))
    ∙ number_of rows'

module _ {A B : Type 0} (f : A → B) (s : A → ℕ) (t : B → ℕ) (same : (x : A) → t (f x) ≡ s x) where
  All-map_below : (n : ℕ) (xs : List A) → All (λ y. s y ≤ n) xs → All (λ y. t y ≤ n) (map f xs)
  All-map_below n [] h = tt
  All-map_below n (x ∷ xs) h = (rw (same x) h.0, All-map_below n xs h.1)

  pub map-IsDescending : (xs : List A) → IsDescending s xs → IsDescending t (map f xs)
  map-IsDescending [] h = tt
  map-IsDescending (x ∷ xs) h = (rw (same x) (All-map_below (s x) xs h.0), map-IsDescending xs h.1)

insert : Joined → List Joined → List Joined
insert x [] = x ∷ []
insert x (y ∷ ys) =
    let rest = insert x ys in if leb (stamp y) (stamp x) then x ∷ y ∷ ys else y ∷ rest

unfoldable pub insertion_sort : List Joined → List Joined
unfolding insert
insertion_sort [] = []
insertion_sort (x ∷ xs) = insert x (insertion_sort xs)

insert-perm : (x : Joined) (ys : List Joined) → Perm (insert x ys) (x ∷ ys)
unfolding insert
insert-perm x [] = Perm.refl _
insert-perm x (y ∷ ys) = elim (Bool-cases (leb (stamp y) (stamp x))) [
  | inl e ↦ rw e (Perm.refl _)
  | inr e ↦ rw e (Perm.trans (Perm.cons y (insert-perm x ys)) (Perm.swap x y ys))
]

All-insert :
    (P : Joined → Type 0) (x : Joined) (ys : List Joined) → P x → All P ys → All P (insert x ys)
unfolding insert
All-insert P x [] h all = (h, tt)
All-insert P x (y ∷ ys) h all = elim (Bool-cases (leb (stamp y) (stamp x))) [
  | inl e ↦ rw e (h, all)
  | inr e ↦ rw e (all.0, All-insert P x ys h all.1)
]

insert-IsDescending :
    (x : Joined) (ys : List Joined) → IsDescending stamp ys → IsDescending stamp (insert x ys)
unfolding insert
insert-IsDescending x [] h = (tt, tt)
insert-IsDescending x (y ∷ ys) h = elim (Bool-cases (leb (stamp y) (stamp x))) [
  | inl e ↦ rw e ((ground (arith, e), All-map _ _ ys (λ z below. ground (arith, e, below)) h.0), h)
  | inr e ↦ rw e (All-insert _ x ys (ground (arith, e)) h.0, insert-IsDescending x ys h.1)
]

pub insertion_sort-Orders : Orders insertion_sort
unfolding insertion_sort
insertion_sort-Orders = record { arranged = arranged; ordered = ordered }
  where
    arranged : (rows : List Joined) → Perm (insertion_sort rows) rows
    arranged [] = Perm.refl _
    arranged (x ∷ xs) = Perm.trans (insert-perm x (insertion_sort xs)) (Perm.cons x (arranged xs))

    ordered : (rows : List Joined) → IsDescending stamp (insertion_sort rows)
    ordered [] = tt
    ordered (x ∷ xs) = insert-IsDescending x (insertion_sort xs) (ordered xs)
