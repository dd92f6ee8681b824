-- ===== src/Reports/Ties.antt =====
-- Where no two rows have one timestamp, an order by timestamp leaves no choice.
use mathlib.Core.List.{Perm, Mem, mem-cons_self, mem-cons_of_mem, Memᴰ}
use mathlib.Core.List.Perm
use mathlib.Core.Logic.{∥∥₁_elim}
use native.Mathlib.Bridge.{le_prop}
use native.Mathlib.Nat.{ℕ_set}
use attendance_tracker.Prelude.{
  ℕ, ◌≤◌, ◌≡◌, refl, sym, ap, subst, ◌∙◌, List, [], ◌∷◌, All, arith, ⊤, ◌≢◌,
}
use attendance_tracker.Reports.{Joined}
use attendance_tracker.Reports.Order.{Orders, IsDescending, stamp, length-perm}

Joined-set : IsSet Joined
Joined-set = hlevel ℕ_set

-- no two rows have one timestamp
abbrev pub IsUntied : List Joined → Type 0
IsUntied [] = ⊤
IsUntied (r ∷ rows) = All (λ s. stamp s ≢ stamp r) rows × IsUntied rows

Apart : List Joined → Type 0
Apart rows = (r s : Joined) → Mem r rows → Mem s rows → stamp r ≡ stamp s → r ≡ s

not_newer :
    (n : ℕ) (x : Joined) (ys : List Joined) → All (λ y. stamp y ≤ n) ys → Memᴰ x ys → stamp x ≤ n
not_newer n x [] h m = elim m [ ]
not_newer n x (y ∷ ys) h (Memᴰ.head e) = omega (arith, ap stamp e, h.0)
not_newer n x (y ∷ ys) h (Memᴰ.tail m) = not_newer n x ys h.1 m

other_stamp :
    (n : ℕ) (s : Joined) (rows : List Joined)
    → All (λ r. stamp r ≢ n) rows
    → Memᴰ s rows
    → stamp s ≢ n
other_stamp n s [] h m = elim m [ ]
other_stamp n s (r ∷ rows) h (Memᴰ.head e) = λ k. h.0 (ap stamp (sym e) ∙ k)
other_stamp n s (r ∷ rows) h (Memᴰ.tail m) = other_stamp n s rows h.1 m

same_row :
    (rows : List Joined) (r s : Joined)
    → IsUntied rows
    → Memᴰ r rows
    → Memᴰ s rows
    → stamp r ≡ stamp s
    → r ≡ s
same_row [] r s h m n same = elim m [ ]
same_row (x ∷ rows) r s h (Memᴰ.head e) (Memᴰ.head f) same = e ∙ sym f
same_row (x ∷ rows) r s h (Memᴰ.head e) (Memᴰ.tail m) same =
    absurd (other_stamp (stamp x) s rows h.0 m (sym same ∙ ap stamp e))
same_row (x ∷ rows) r s h (Memᴰ.tail m) (Memᴰ.head f) same =
    absurd (other_stamp (stamp x) r rows h.0 m (same ∙ ap stamp f))
same_row (x ∷ rows) r s h (Memᴰ.tail m) (Memᴰ.tail n) same = same_row rows r s h.1 m n same

untied-Apart : (rows : List Joined) → IsUntied rows → Apart rows
unfolding Apart
untied-Apart rows h = λ r s m n same.
    ∥∥₁_elim m (Joined-set r s) λ d. ∥∥₁_elim n (Joined-set r s) λ e. same_row rows r s h d e same

first_is_newest :
    (x y : Joined) (ys : List Joined)
    → IsDescending stamp (y ∷ ys)
    → Mem x (y ∷ ys)
    → stamp x ≤ stamp y
first_is_newest x y ys h m =
    ∥∥₁_elim m le_prop λ d. not_newer (stamp y) x (y ∷ ys) (omega arith, h.0) d

same_order :
    (xs ys : List Joined)
    → Perm xs ys
    → Apart xs
    → IsDescending stamp xs
    → IsDescending stamp ys
    → xs ≡ ys
unfolding Apart
same_order [] [] p apart down down' = refl
same_order [] (y ∷ ys) p apart down down' = absurd (omega (arith, length-perm p))
same_order (x ∷ xs) [] p apart down down' = absurd (omega (arith, length-perm p))
same_order (x ∷ xs) (y ∷ ys) p apart down down' =
    let here : Mem x (x ∷ xs) = mem-cons_self in
    let there : Mem y (x ∷ xs) = (Perm.mem_iff p).1 mem-cons_self in
    let up : stamp x ≤ stamp y = first_is_newest x y ys down' ((Perm.mem_iff p).0 here) in
    let below : stamp y ≤ stamp x = first_is_newest y x xs down there in
    let same : x ≡ y = apart x y here there (omega (arith, up, below)) in
    ap (λ z. z ∷ xs) same
    ∙ ap (λ zs. y ∷ zs)
        (same_order xs ys (Perm.cons_inv (subst (λ z. Perm (z ∷ xs) (y ∷ ys)) same p))
          (λ r s m n. apart r s (mem-cons_of_mem x m) (mem-cons_of_mem x n)) down.1 down'.1)

-- Two queries that order by timestamp then answer one list, where no two rows have one timestamp.
pub same_answer :
    (f g : List Joined → List Joined) (rows : List Joined)
    → Orders f
    → Orders g
    → IsUntied rows
    → f rows ≡ g rows
unfolding Apart
same_answer f g rows first second untied =
    let apart = untied-Apart rows untied in
    same_order (f rows) (g rows)
      (Perm.trans (first.arranged rows) (Perm.symm (second.arranged rows)))
      (λ r s m n.
        apart r s ((Perm.mem_iff (first.arranged rows)).0 m)
          ((Perm.mem_iff (first.arranged rows)).0 n))
      (first.ordered rows) (second.ordered rows)
