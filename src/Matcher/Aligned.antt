-- ===== src/Matcher/Aligned.antt =====
-- The matcher as a map from users to vectors.
use attendance_tracker.Prelude.{
  ℕ, zero, suc, ◌≡◌, ◌≤◌, refl, Option, none, some, true, List, [], ◌∷◌, ◌++◌, ◌==◌, if◌then◌else◌,
  length, count, arith, Option-cases, inl, inr, length-snoc, is_some,
}
use attendance_tracker.Numerics.{Numerics}
use attendance_tracker.Matcher

abbrev pub occurrences : ℕ → List ℕ → ℕ
occurrences u = count (λ x. x == u)

pub index_of-none : (u : ℕ) (xs : List ℕ) → Matcher.index_of u xs ≡ none → occurrences u xs ≡ 0
unfolding Matcher.index_of
index_of-none u [] h = refl
index_of-none u (x ∷ xs) h = ground (arith, h, index_of-none u xs)

module _ {E : Type 0} where
  -- the vector of the first position of a user
  abbrev pub vector_at : ℕ → List ℕ → List E → Option E
  vector_at w [] es = none
  vector_at w (x ∷ xs) [] = none
  vector_at w (x ∷ xs) (e ∷ es) = let rest = vector_at w xs es in if x == w then some e else rest

  vector_at-none :
      (w : ℕ) (xs : List ℕ) (es : List E) → occurrences w xs ≡ 0 → vector_at w xs es ≡ none
  vector_at-none w [] es h = refl
  vector_at-none w (x ∷ xs) [] h = refl
  vector_at-none w (x ∷ xs) (e ∷ es) h = ground (arith, h, vector_at-none w xs es)

  vector_at_there :
      (u i : ℕ) (xs : List ℕ) (es : List E)
      → length es ≡ length xs
      → Matcher.index_of u xs ≡ some i
      → is_some (vector_at u xs es) ≡ true
  unfolding Matcher.index_of
  vector_at_there u i [] es a h = absurd (ground (arith, h))
  vector_at_there u i (x ∷ xs) [] a h = absurd (omega (arith, a))
  vector_at_there u zero (x ∷ xs) (e ∷ es) a h = ground (arith, h)
  vector_at_there u (suc i) (x ∷ xs) (e ∷ es) a h =
      ground (arith, h, vector_at_there u i xs es (omega (arith, a)) (ground (arith, h)))

  vector_at-snoc :
      (w u : ℕ) (y : E) (xs : List ℕ) (es : List E)
      → length es ≡ length xs
      → occurrences u xs ≡ 0
      → vector_at w (xs ++ u ∷ []) (es ++ y ∷ []) ≡ (if w == u then some y else vector_at w xs es)
  vector_at-snoc w u y [] [] a h = ground arith
  vector_at-snoc w u y [] (e ∷ es) a h = absurd (omega (arith, a))
  vector_at-snoc w u y (x ∷ xs) [] a h = absurd (omega (arith, a))
  vector_at-snoc w u y (x ∷ xs) (e ∷ es) a h =
      ground (arith, a, h, vector_at-snoc w u y xs es (omega (arith, a)) (ground (arith, h)))

  vector_at-set_at :
      (w u i : ℕ) (y : E) (xs : List ℕ) (es : List E)
      → length es ≡ length xs
      → Matcher.index_of u xs ≡ some i
      → vector_at w xs (Matcher.set_at i y es) ≡ (if w == u then some y else vector_at w xs es)
  unfolding Matcher.index_of
  vector_at-set_at w u i y [] es a h = absurd (ground (arith, h))
  vector_at-set_at w u i y (x ∷ xs) [] a h = absurd (omega (arith, a))
  vector_at-set_at w u zero y (x ∷ xs) (e ∷ es) a h = ground (arith, h)
  vector_at-set_at w u (suc i) y (x ∷ xs) (e ∷ es) a h =
      ground (arith, h, vector_at-set_at w u i y xs es (omega (arith, a)) (ground (arith, h)))

  vector_at-delete_at :
      (w u i : ℕ) (xs : List ℕ) (es : List E)
      → length es ≡ length xs
      → occurrences u xs ≤ 1
      → Matcher.index_of u xs ≡ some i
      → vector_at w (Matcher.delete_at i xs) (Matcher.delete_at i es)
        ≡ (if w == u then none else vector_at w xs es)
  unfolding Matcher.index_of
  vector_at-delete_at w u i [] es a o h = absurd (ground (arith, h))
  vector_at-delete_at w u i (x ∷ xs) [] a o h = absurd (omega (arith, a))
  vector_at-delete_at w u zero (x ∷ xs) (e ∷ es) a o h =
      ground (arith, h, o, vector_at-none u xs es)
  vector_at-delete_at w u (suc i) (x ∷ xs) (e ∷ es) a o h = ground (
    arith,
    h,
    vector_at-delete_at w u i xs es (omega (arith, a)) (ground (arith, h, o)) (ground (arith, h)),
  )

  length-set_at : (i : ℕ) (y : E) (es : List E) → length (Matcher.set_at i y es) ≡ length es
  length-set_at i y [] = refl
  length-set_at zero y (e ∷ es) = refl
  length-set_at (suc i) y (e ∷ es) = omega (arith, length-set_at i y es)

  length-delete_at :
      (u i : ℕ) (xs : List ℕ) (es : List E)
      → length es ≡ length xs
      → length (Matcher.delete_at i es) ≡ length (Matcher.delete_at i xs)
  length-delete_at u i [] [] a = refl
  length-delete_at u i [] (e ∷ es) a = absurd (omega (arith, a))
  length-delete_at u i (x ∷ xs) [] a = absurd (omega (arith, a))
  length-delete_at u zero (x ∷ xs) (e ∷ es) a = omega (arith, a)
  length-delete_at u (suc i) (x ∷ xs) (e ∷ es) a =
      omega (arith, length-delete_at u i xs es (omega (arith, a)))

module _ (v : Numerics) where
  abbrev pub IsAligned : Matcher.Matcher v → Type 0
  IsAligned m = length (Matcher.rows v m) ≡ length m.user_ids

  abbrev pub vector_of : ℕ → Matcher.Matcher v → Option v.Embedding
  vector_of w m = vector_at w m.user_ids (Matcher.rows v m)

  -- With a vector for each user, and a user at most once, removal is removal from the map: the user
  -- has no vector, the others keep theirs, and the vectors stay aligned with the users. The answer
  -- says whether the user was there.
  pub remove_user_lem :
      (u : ℕ) (m : Matcher.Matcher v)
      → IsAligned m
      → occurrences u m.user_ids ≤ 1
      → IsAligned (Matcher.remove_user v u m).0
        × ((w : ℕ)
            → vector_of w (Matcher.remove_user v u m).0 ≡ (if w == u then none else vector_of w m))
        × ((Matcher.remove_user v u m).1 ≡ is_some (vector_of u m))
  unfolding Matcher.remove_user
  remove_user_lem u m a o = elim (Option-cases (Matcher.index_of u m.user_ids)) [
    | inl e ↦ (
      ground (arith, e, a),
      λ w.
          ground (
            arith,
            e,
            vector_at-none u m.user_ids (Matcher.rows v m),
            index_of-none u m.user_ids e,
          ),
      ground
          (arith, e, vector_at-none u m.user_ids (Matcher.rows v m), index_of-none u m.user_ids e),
    )
    | inr (i, e) ↦ (
      ground (arith, e, length-delete_at u i m.user_ids (Matcher.rows v m) a),
      λ w. ground (arith, e, vector_at-delete_at w u i m.user_ids (Matcher.rows v m) a o e),
      ground (arith, e, vector_at_there u i m.user_ids (Matcher.rows v m) a e),
    )
  ]

  -- With a vector for each user, an update of a vector is an update of the map, for a known user
  -- and for a new one.
  pub update_embedding_lem :
      (u : ℕ) (y : v.Embedding) (m : Matcher.Matcher v)
      → IsAligned m
      → IsAligned (Matcher.update_embedding v u y m)
        × ((w : ℕ)
            → vector_of w (Matcher.update_embedding v u y m)
              ≡ (if w == u then some y else vector_of w m))
  unfolding Matcher.update_embedding Matcher.add_user
  update_embedding_lem u y m a = elim (Option-cases (Matcher.index_of u m.user_ids)) [
    | inl e ↦ (
      ground (arith, e, a, length-snoc (Matcher.rows v m) y, length-snoc m.user_ids u),
      λ w. ground (
        arith,
        e,
        vector_at-snoc w u y m.user_ids (Matcher.rows v m) a (index_of-none u m.user_ids e),
      ),
    )
    | inr (i, e) ↦ (
      ground (arith, e, a, length-set_at i y (Matcher.rows v m)),
      λ w. ground (arith, e, vector_at-set_at w u i y m.user_ids (Matcher.rows v m) a e),
    )
  ]
