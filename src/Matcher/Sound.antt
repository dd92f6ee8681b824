-- ===== src/Matcher/Sound.antt =====
-- What a match means, and what the FAISS index holds after the last user is removed.
use attendance_tracker.Prelude.{
  ℕ, zero, suc, ◌≡◌, refl, some, true, List, [], ◌∷◌, length, get_elem?, map, arith, Bool-cases,
  Option-cases, inl, inr, min,
}
use attendance_tracker.Database.Session.{ok}
use attendance_tracker.Numerics.{Numerics}
use attendance_tracker.Matcher

-- `score` is that of the vector at a position of the user, and reaches the threshold
abbrev pub IsMatch :
    (v : Numerics) → v.Embedding → v.Float → Matcher.Matcher v → ℕ → v.Float → Type 0
IsMatch v query threshold m user_id score =
    (i : ℕ) × (e : v.Embedding) × (get_elem? m.user_ids i ≡ some user_id)
    × (get_elem? (Matcher.rows v m) i ≡ some e)
    × (score ≡ v.dot e query)
    × (v.at_least score threshold ≡ true)

get_elem?-map :
    {A B : Type 0} (f : A → B) (xs : List A) (i : ℕ) (b : B)
    → get_elem? (map f xs) i ≡ some b
    → (a : A) × (get_elem? xs i ≡ some a) × (b ≡ f a)
get_elem?-map f [] i b h = absurd (ground (arith, h))
get_elem?-map f (x ∷ xs) zero b h = (x, refl, ground (arith, h))
get_elem?-map f (x ∷ xs) (suc i) b h = get_elem?-map f xs i b h

module _ (v : Numerics) (ids : List ℕ) (threshold : v.Float) where
  first_match_sound :
      (scores : List v.Float) (is : List ℕ) (u : ℕ) (s : v.Float)
      → Matcher.first_match v ids threshold scores is ≡ ok (some (u, s))
      → (i : ℕ) × (get_elem? ids i ≡ some u)
        × (get_elem? scores i ≡ some s)
        × (v.at_least s threshold ≡ true)
  unfolding Matcher.first_match
  first_match_sound scores [] u s h = absurd (ground (arith, h))
  first_match_sound scores (i ∷ is) u s h = elim (Option-cases (get_elem? scores i)) [
    | inl e ↦ absurd (ground (arith, e, h))
    | inr (t, e) ↦ elim (Bool-cases (v.at_least t threshold)) [
      | inl f ↦ elim (Option-cases (get_elem? ids i)) [
        | inl g ↦ absurd (ground (arith, e, f, g, h))
        | inr (w, g) ↦
            (i, ground (arith, e, f, g, h), ground (arith, e, f, g, h), ground (arith, e, f, g, h))
      ]
      | inr f ↦ first_match_sound scores is u s (ground (arith, e, f, h))
    ]
  ]

-- A match that NumPy finds is of a user with a vector whose score it is, and the score reaches the
-- threshold, whatever order `argsort` gives.
pub match_numpy_sound :
    (v : Numerics) (query : v.Embedding) (threshold : v.Float) (top_k : ℕ) (m : Matcher.Matcher v)
    (u : ℕ) (s : v.Float)
    → Matcher.match_numpy v query threshold top_k m ≡ ok (some (u, s))
    → IsMatch v query threshold m u s
unfolding Matcher.match_numpy
match_numpy_sound v query threshold top_k m u s h =
    let scores = map (λ e. v.dot e query) (Matcher.rows v m) in
    let (i, known, score, enough) =
      first_match_sound v m.user_ids threshold scores
        (Matcher.reverse_onto [] (Matcher.last_of (min top_k (length scores)) (v.argsort scores))) u
        s h in
    let (e, there, same) = get_elem?-map (λ e. v.dot e query) (Matcher.rows v m) i s score in
    (i, e, known, there, same, enough)

-- With FAISS, the removal of the only user leaves its vector in the index: a user who is added next
-- has the first position among the users and the second in the index.
pub remove_user_stale :
    (v : Numerics) (u w : ℕ) (x y : v.Embedding) (m : Matcher.Matcher v)
    → Matcher.build v (x ∷ []) (u ∷ []) (Matcher.new_matcher v true) ≡ ok m
    → let after = Matcher.add_user v w y (Matcher.remove_user v u m).0 in
      (after.user_ids ≡ w ∷ [])
      × (after.embeddings ≡ some (y ∷ []))
      × (after.faiss_index ≡ some (v.index_add y (v.build_index (x ∷ []))))
unfolding Matcher.build Matcher.remove_user Matcher.add_user Matcher.index_of
remove_user_stale v u w x y m h = (ground (arith, h), ground (arith, h), ground (arith, h))
