-- ===== src/Registry/Refresh.antt =====
-- The registry that a refresh builds from the tables.
use attendance_tracker.Prelude.{
  ℕ, ◌≡◌, refl, sym, ap, ◌∙◌, Option, none, some, List, [], ◌∷◌, ◌++◌, inl, inr, ◌==◌, ◌&&◌,
  if◌then◌else◌, arith, Option-cases, Bool-cases, ==_iff, find,
}
use attendance_tracker.Database.Rows.{Db, User, Embedding}
use attendance_tracker.Database.Session.{ok}
use attendance_tracker.Numerics.{Numerics}
use attendance_tracker.Matcher
use attendance_tracker.Matcher.Aligned
use attendance_tracker.Registry
use attendance_tracker.Registry.Loaded.{length-map, first_vector}
use attendance_tracker.Registry.Isolated.{get-put}
use attendance_tracker.Registry.Updates.{held}

abbrev or_else : {A : Type 0} → Option A → Option A → Option A
or_else none y = y
or_else (some x) y = some x

module _ (v : Numerics) (c : Registry.IndexConfig) where
  -- an active user of an active organization
  abbrev pub active_user : ℕ → Db → Option User
  active_user w db = find (λ u. u.id == w && u.is_active && Registry.active_org v c db u) db.users

  abbrev pub if_of : ℕ → Option User → Option v.Embedding → Option v.Embedding
  if_of o none x = none
  if_of o (some u) x = if u.organization_id == o then x else none

  abbrev in_pairs : ℕ → List (ℕ × v.Embedding) → Option v.Embedding
  in_pairs w ps = Aligned.vector_at w (Registry.ids_of v c ps) (Registry.vectors_of v c ps)

  abbrev in_groups : ℕ → ℕ → List (ℕ × List (ℕ × v.Embedding)) → Option v.Embedding
  in_groups o w groups = in_pairs w (Registry.pairs_of v c (Registry.get o groups))

  in_pairs-snoc :
      (w u : ℕ) (x : v.Embedding) (ps : List (ℕ × v.Embedding))
      → in_pairs w (ps ++ (u, x) ∷ []) ≡ or_else (in_pairs w ps) (if u == w then some x else none)
  in_pairs-snoc w u x [] = ground arith
  in_pairs-snoc w u x ((k, y) ∷ ps) = elim (Bool-cases (k == w)) [
    | inl e ↦ ground (arith, e)
    | inr e ↦ ground (arith, e, in_pairs-snoc w u x ps)
  ]

  or_else_assoc : (a b d : Option v.Embedding) → or_else (or_else a b) d ≡ or_else a (or_else b d)
  or_else_assoc none b d = refl
  or_else_assoc (some x) b d = refl

  or_else-none : (a : Option v.Embedding) → or_else a none ≡ a
  or_else-none none = refl
  or_else-none (some x) = refl

  if_of-none : (o : ℕ) (u : Option User) → if_of o u none ≡ none
  if_of-none o none = refl
  if_of-none o (some u) = ground arith

  -- the first vector of a user among the rows of an organization
  abbrev in_rows : ℕ → ℕ → List (ℕ × ℕ × List ℕ) → Option v.Embedding
  in_rows o w [] = none
  in_rows o w ((org, u, raw) ∷ rows) =
      or_else (if org == o then (if u == w then Registry.decode_vector v c raw else none) else none)
        (in_rows o w rows)

  in_groups-put :
      (o w org u : ℕ) (x : v.Embedding) (groups : List (ℕ × List (ℕ × v.Embedding)))
      → in_groups o w
          (Registry.put org (Registry.pairs_of v c (Registry.get org groups) ++ (u, x) ∷ []) groups)
        ≡ or_else
            (in_groups o w groups)
            (if org == o then (if u == w then some x else none) else none)
  in_groups-put o w org u x groups =
      let ps = Registry.pairs_of v c (Registry.get org groups) in
      elim (Bool-cases (org == o)) [
        | inl e ↦ ground (
          arith,
          e,
          get-put o org (ps ++ (u, x) ∷ []) groups,
          in_pairs-snoc w u x ps,
          ap (λ i. Registry.get i groups) ((==_iff org o).0 e),
        )
        | inr e ↦ ground (
          arith,
          e,
          get-put o org (ps ++ (u, x) ∷ []) groups,
          or_else-none (in_groups o w groups),
        )
      ]

  in_groups-grouped :
      (o w : ℕ) (rows : List (ℕ × ℕ × List ℕ)) (groups : List (ℕ × List (ℕ × v.Embedding)))
      → in_groups o w (Registry.grouped v c rows groups)
        ≡ or_else (in_groups o w groups) (in_rows o w rows)
  unfolding Registry.grouped
  in_groups-grouped o w [] groups = sym (or_else-none (in_groups o w groups))
  in_groups-grouped o w ((org, u, raw) ∷ rows) groups =
      elim (Option-cases (Registry.decode_vector v c raw)) [
        | inl d ↦ ground (arith, d, in_groups-grouped o w rows groups)
        | inr (x, d) ↦
            let next =
              Registry.put org (Registry.pairs_of v c (Registry.get org groups) ++ (u, x) ∷ [])
                groups in
            ground (
              arith,
              d,
              in_groups-grouped o w rows next,
              in_groups-put o w org u x groups,
              or_else_assoc (in_groups o w groups)
                  (if org == o then (if u == w then some x else none) else none) (in_rows o w rows),
            )
      ]

  in_rows-all_rows :
      (o w : ℕ) (db : Db) (es : List Embedding)
      → in_rows o w (Registry.all_rows v c db es)
        ≡ if_of o (active_user w db) (first_vector v c w es)
  in_rows-all_rows o w db [] = sym (if_of-none o (active_user w db))
  in_rows-all_rows o w db (e ∷ es) = elim (Option-cases (active_user e.user_id db)) [
    | inl f ↦ elim (Bool-cases (e.user_id == w)) [
      | inl same ↦ ground (
        arith,
        f,
        same,
        in_rows-all_rows o w db es,
        ap (λ i. active_user i db) ((==_iff e.user_id w).0 same),
      )
      | inr other ↦ ground (arith, f, other, in_rows-all_rows o w db es)
    ]
    | inr (u, f) ↦ elim (Bool-cases (e.user_id == w)) [
      | inl same ↦ ground (
        arith,
        f,
        same,
        in_rows-all_rows o w db es,
        ap (λ i. active_user i db) ((==_iff e.user_id w).0 same),
      )
      | inr other ↦ ground (arith, f, other, in_rows-all_rows o w db es)
    ]
  ]

  built :
      (ps : List (ℕ × v.Embedding))
      → (m : Matcher.Matcher v) × (Registry.build_pairs v c ps ≡ ok m)
        × ((w : ℕ) → Aligned.vector_of v w m ≡ in_pairs w ps)
  unfolding Matcher.build
  built ps =
      let m : Matcher.Matcher v = record {
        use_faiss = c.use_faiss;
        embeddings = some (Registry.vectors_of v c ps);
        user_ids = Registry.ids_of v c ps;
        faiss_index =
            if c.use_faiss then some (v.build_index (Registry.vectors_of v c ps)) else none;
      } in
      (
        m,
        ground (
          arith,
          length-map (λ (q : ℕ × v.Embedding). q.0) ps,
          length-map (λ (q : ℕ × v.Embedding). q.1) ps,
        ),
        λ w. refl,
      )

  built_groups :
      (groups : List (ℕ × List (ℕ × v.Embedding)))
      → (reg : Registry.Registry v) × (Registry.build_groups v c groups ≡ ok reg)
        × ((o w : ℕ) → held v c o w reg ≡ in_groups o w groups)
  built_groups [] = ([], refl, λ o w. refl)
  built_groups ((org, ps) ∷ groups) =
      let (m, b, same) = built ps in
      let (reg, rest, others) = built_groups groups in
      (
        (org, m) ∷ reg,
        ground (arith, b, rest),
        λ o w. elim (Bool-cases (org == o)) [
          | inl e ↦ ground (arith, e, same w)
          | inr e ↦ ground (arith, e, others o w)
        ],
      )

  -- A refresh cannot fail. Its registry has a vector for a user in an organization exactly if the
  -- user is an active one of that organization, the organization is active, and a row of the user
  -- has a vector of the right size: then the first such.
  pub refresh_all_lem :
      (db : Db)
      → (reg : Registry.Registry v) × (Registry.refresh_all v c db ≡ ok reg)
        × ((o w : ℕ)
            → held v c o w reg ≡ if_of o (active_user w db) (first_vector v c w db.embeddings))
  unfolding Registry.refresh_all
  refresh_all_lem db =
      let (reg, b, same) =
        built_groups (Registry.grouped v c (Registry.all_rows v c db db.embeddings) []) in
      (
        reg,
        b,
        λ o w.
            same o w
            ∙ in_groups-grouped o w (Registry.all_rows v c db db.embeddings) []
            ∙ in_rows-all_rows o w db db.embeddings,
      )
