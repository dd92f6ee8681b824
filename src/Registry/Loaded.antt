-- ===== src/Registry/Loaded.antt =====
-- A loaded matcher as a map from users to vectors, against the table of embeddings.
use attendance_tracker.Prelude.{
  ℕ, ◌≡◌, refl, sym, ap, Option, none, some, List, [], ◌∷◌, ◌⊎◌, inl, inr, ◌==◌, if◌then◌else◌,
  length, map, arith, Option-cases, Bool-cases, ==_iff,
}
use attendance_tracker.Database.Rows.{Db, User, Embedding}
use attendance_tracker.Database.Session.{ok}
use attendance_tracker.Numerics.{Numerics}
use attendance_tracker.Matcher
use attendance_tracker.Matcher.Aligned
use attendance_tracker.Registry

pub length-map : {A B : Type 0} (f : A → B) (xs : List A) → length (map f xs) ≡ length xs
length-map f [] = refl
length-map f (x ∷ xs) = omega (arith, length-map f xs)

module _ (v : Numerics) (c : Registry.IndexConfig) where
  -- the first vector of the right size among the rows of a user
  abbrev pub first_vector : ℕ → List Embedding → Option v.Embedding
  first_vector u [] = none
  first_vector u (e ∷ es) =
      let rest = first_vector u es in
      if e.user_id == u
      then (elim (Registry.decode_vector v c e.vector) [ none ↦ rest | some x ↦ some x ])
      else rest

  abbrev pub if_owned : Option User → Option v.Embedding → Option v.Embedding
  if_owned none x = none
  if_owned (some u) x = x

  -- what the tables say of a user of an organization: none, unless an active one
  abbrev pub template : ℕ → ℕ → Db → Option v.Embedding
  template org u db = if_owned (Registry.owner v c org u db) (first_vector u db.embeddings)

  abbrev pairs : ℕ → Db → List Embedding → List (ℕ × v.Embedding)
  pairs org db es = Registry.decoded v c (Registry.org_rows v c org db es)

  abbrev vector_in_pairs : ℕ → List (ℕ × v.Embedding) → Option v.Embedding
  vector_in_pairs u ps = Aligned.vector_at u (Registry.ids_of v c ps) (Registry.vectors_of v c ps)

  owned : (u : ℕ) (o : Option User) (x : Option v.Embedding) → if_owned o none ≡ none
  owned u none x = refl
  owned u (some w) x = refl

  vector_in_pairs_lem :
      (org u : ℕ) (db : Db) (es : List Embedding)
      → vector_in_pairs u (pairs org db es)
        ≡ if_owned (Registry.owner v c org u db) (first_vector u es)
  vector_in_pairs_lem org u db [] = sym (owned u (Registry.owner v c org u db) none)
  vector_in_pairs_lem org u db (e ∷ es) =
      elim (Option-cases (Registry.owner v c org e.user_id db)) [
        | inl o ↦ elim (Bool-cases (e.user_id == u)) [
          | inl same ↦ ground (
            arith,
            o,
            same,
            vector_in_pairs_lem org u db es,
            ap (λ i. Registry.owner v c org i db) ((==_iff e.user_id u).0 same),
          )
          | inr other ↦ ground (arith, o, other, vector_in_pairs_lem org u db es)
        ]
        | inr (w, o) ↦ elim (Option-cases (Registry.decode_vector v c e.vector)) [
          | inl d ↦ ground (arith, o, d, vector_in_pairs_lem org u db es)
          | inr (x, d) ↦ elim (Bool-cases (e.user_id == u)) [
            | inl same ↦ ground (
              arith,
              o,
              d,
              same,
              vector_in_pairs_lem org u db es,
              ap (λ i. Registry.owner v c org i db) ((==_iff e.user_id u).0 same),
            )
            | inr other ↦ ground (arith, o, d, other, vector_in_pairs_lem org u db es)
          ]
        ]
      ]

  -- the matcher of an organization in a state of the tables
  pub record Loaded (org : ℕ) (db : Db) (m : Matcher.Matcher v) : Type 0 where
    pub aligned : Aligned.IsAligned v m
    pub templates : (u : ℕ) → Aligned.vector_of v u m ≡ template org u db

  matcher_of_lem :
      (org : ℕ) (db : Db) (ps : List (ℕ × v.Embedding))
      → ((u : ℕ) → vector_in_pairs u ps ≡ template org u db)
      → ((Registry.matcher_of v c ps ≡ ok none) × ((u : ℕ) → template org u db ≡ none))
        ⊎ ((m : Matcher.Matcher v) × (Registry.matcher_of v c ps ≡ ok (some m)) × Loaded org db m)
  unfolding Matcher.build
  matcher_of_lem org db [] h = inl (refl, λ u. sym (h u))
  matcher_of_lem org db (p ∷ ps) h =
      let m : Matcher.Matcher v = record {
        use_faiss = c.use_faiss;
        embeddings = some (Registry.vectors_of v c (p ∷ ps));
        user_ids = Registry.ids_of v c (p ∷ ps);
        faiss_index =
            if c.use_faiss then some (v.build_index (Registry.vectors_of v c (p ∷ ps))) else none;
      } in
      let same = length-map (λ (q : ℕ × v.Embedding). q.0) ps in
      let same' = length-map (λ (q : ℕ × v.Embedding). q.1) ps in
      inr (
        m,
        ground (arith, same, same'),
        record { aligned = omega (arith, same, same'); templates = h },
      )

  -- Loading an organization cannot fail. It gives no matcher where no active user of the
  -- organization has a vector, else one that holds, for each user, the vector of the tables, and
  -- none for the users of other organizations.
  pub load_org_lem :
      (org : ℕ) (db : Db)
      → ((Registry.load_org v c org db ≡ ok none) × ((u : ℕ) → template org u db ≡ none))
        ⊎ ((m : Matcher.Matcher v) × (Registry.load_org v c org db ≡ ok (some m)) × Loaded org db m)
  unfolding Registry.load_org
  load_org_lem org db =
      matcher_of_lem org db (pairs org db db.embeddings)
        (λ u. vector_in_pairs_lem org u db db.embeddings)
