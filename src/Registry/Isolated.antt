-- ===== src/Registry/Isolated.antt =====
-- The registry beside the tables, through the changes of both: what a matcher holds is a template
-- of its organization.
use attendance_tracker.Prelude.{
  ℕ, zero, suc, ◌+◌, ◌≡◌, ◌≤◌, refl, sym, ap, ◌∙◌, Option, none, some, false, ◌&&◌, List, [], ◌∷◌,
  ◌++◌, ◌⊎◌, inl, inr, ◌==◌, if◌then◌else◌, count, arith, Option-cases, Bool-cases, ==_iff,
}
use attendance_tracker.Database.Rows.{Db, Embedding}
use attendance_tracker.Numerics.{Numerics}
use attendance_tracker.Matcher
use attendance_tracker.Matcher.Aligned
use attendance_tracker.Registry
use attendance_tracker.Registry.Loaded

pub get-put :
    {A : Type 0} (o k : ℕ) (m : A) (xs : List (ℕ × A))
    → Registry.get o (Registry.put k m xs) ≡ (if k == o then some m else Registry.get o xs)
get-put o k m [] = refl
get-put o k m ((j, n) ∷ xs) = elim (Bool-cases (j == k)) [
  | inl e ↦ ground (arith, e)
  | inr e ↦ ground (arith, e, get-put o k m xs)
]

occurrences-snoc :
    (w u : ℕ) (xs : List ℕ)
    → Aligned.occurrences w (xs ++ u ∷ []) ≡ Aligned.occurrences w xs + (if u == w then 1 else 0)
occurrences-snoc w u [] = omega arith
occurrences-snoc w u (x ∷ xs) = omega (arith, occurrences-snoc w u xs)

occurrences-delete_at :
    (w i : ℕ) (xs : List ℕ)
    → Aligned.occurrences w (Matcher.delete_at i xs) ≤ Aligned.occurrences w xs
occurrences-delete_at w i [] = omega arith
occurrences-delete_at w zero (x ∷ xs) = omega arith
occurrences-delete_at w (suc i) (x ∷ xs) = omega (arith, occurrences-delete_at w i xs)

-- a user has one row of embeddings at most: the column is unique
abbrev pub UniqueRows : Db → Type 0
UniqueRows db = (u : ℕ) → count (λ e. e.user_id == u) db.embeddings ≤ 1

module _ (v : Numerics) (c : Registry.IndexConfig) where
  -- a vector for each user, and a user at most once
  pub record Fine (m : Matcher.Matcher v) : Type 0 where
    pub aligned : Aligned.IsAligned v m
    pub once : (u : ℕ) → Aligned.occurrences u m.user_ids ≤ 1

  pub record Sound (org : ℕ) (db : Db) (m : Matcher.Matcher v) : Type 0 where
    pub fine : Fine m
    pub held :
        (u : ℕ) (x : v.Embedding)
        → Aligned.vector_of v u m ≡ some x
        → Loaded.template v c org u db ≡ some x

  abbrev pub IsSound : Db → Registry.Registry v → Type 0
  IsSound db reg =
      (org : ℕ) (m : Matcher.Matcher v) → Registry.get org reg ≡ some m → Sound org db m

  -- the tables agree on the templates of all but one user
  abbrev pub SameButFor : ℕ → ℕ → Db → Db → Type 0
  SameButFor org u db db' =
      (o w : ℕ)
      → (o == org && w == u) ≡ false
      → Loaded.template v c o w db ≡ Loaded.template v c o w db'

  update_embedding-Fine :
      (u : ℕ) (y : v.Embedding) (m : Matcher.Matcher v)
      → Fine m
      → Fine (Matcher.update_embedding v u y m)
  unfolding Matcher.update_embedding Matcher.add_user
  update_embedding-Fine u y m f = record {
    aligned = (Aligned.update_embedding_lem v u y m f.aligned).0;
    once = λ w. elim (Option-cases (Matcher.index_of u m.user_ids)) [
      | inl e ↦ ground (
        arith,
        e,
        f.once w,
        occurrences-snoc w u m.user_ids,
        Aligned.index_of-none u m.user_ids e,
      )
      | inr (i, e) ↦ ground (arith, e, f.once w)
    ];
  }

  pub remove_user-Fine :
      (u : ℕ) (m : Matcher.Matcher v) → Fine m → Fine (Matcher.remove_user v u m).0
  unfolding Matcher.remove_user
  remove_user-Fine u m f = record {
    aligned = (Aligned.remove_user_lem v u m f.aligned (f.once u)).0;
    once = λ w. elim (Option-cases (Matcher.index_of u m.user_ids)) [
      | inl e ↦ ground (arith, e, f.once w)
      | inr (i, e) ↦ ground (arith, e, f.once w, occurrences-delete_at w i m.user_ids)
    ];
  }

  pub occurrences-pairs :
      (u org : ℕ) (db : Db) (es : List Embedding)
      → Aligned.occurrences u
          (Registry.ids_of v c (Registry.decoded v c (Registry.org_rows v c org db es)))
        ≤ count (λ e. e.user_id == u) es
  occurrences-pairs u org db [] = omega arith
  occurrences-pairs u org db (e ∷ es) = elim (Option-cases (Registry.owner v c org e.user_id db)) [
    | inl o ↦ ground (arith, o, occurrences-pairs u org db es)
    | inr (w, o) ↦ elim (Option-cases (Registry.decode_vector v c e.vector)) [
      | inl d ↦ ground (arith, o, d, occurrences-pairs u org db es)
      | inr (x, d) ↦ ground (arith, o, d, occurrences-pairs u org db es)
    ]
  ]

  some_update :
      (u w : ℕ) (x y : v.Embedding) (o : Option v.Embedding)
      → (if w == u then some y else o) ≡ some x
      → ((w ≡ u) × (x ≡ y)) ⊎ (((w == u) ≡ false) × (o ≡ some x))
  some_update u w x y o h = elim (Bool-cases (w == u)) [
    | inl e ↦ inl ((==_iff w u).0 e, ground (arith, e, h))
    | inr e ↦ inr (e, ground (arith, e, h))
  ]

  pub update_embedding-Sound :
      (org u : ℕ) (y : v.Embedding) (db : Db) (m : Matcher.Matcher v)
      → Fine m
      → ((w : ℕ) (x : v.Embedding)
          → (w == u) ≡ false
          → Aligned.vector_of v w m ≡ some x
          → Loaded.template v c org w db ≡ some x)
      → Loaded.template v c org u db ≡ some y
      → Sound org db (Matcher.update_embedding v u y m)
  update_embedding-Sound org u y db m f others own = record {
    fine = update_embedding-Fine u y m f;
    held = λ w x h.
        elim (some_update u w x y (Aligned.vector_of v w m)
          (sym ((Aligned.update_embedding_lem v u y m f.aligned).1 w) ∙ h)) [
            | inl (same, xy) ↦ ap (λ i. Loaded.template v c org i db) same ∙ own ∙ ap some (sym xy)
            | inr (e, old) ↦ others w x e old
          ];
  }

  pub none_or :
      (u w : ℕ) (x : v.Embedding) (o : Option v.Embedding)
      → (if w == u then none else o) ≡ some x
      → ((w == u) ≡ false) × (o ≡ some x)
  none_or u w x o h = elim (Bool-cases (w == u)) [
    | inl e ↦ absurd (ground (arith, e, h))
    | inr e ↦ (e, ground (arith, e, h))
  ]
