-- ===== src/Registration/Template.antt =====
-- The table of embeddings after a registration and after a removal.
use attendance_tracker.Prelude.{
  ℕ, ◌+◌, ◌*◌, ◌≡◌, ◌≤◌, ◌<◌, refl, ap, ◌∙◌, none, some, false, List, [], ◌∷◌, ◌++◌, ◌==◌, inl, inr,
  length, count, find, update_where, delete_where, if◌then◌else◌, arith, Option-cases, Bool-cases,
  ==_iff, find-append, find-update_where, find_holds,
}
use attendance_tracker.Database.Rows.{Db, Embedding}
use attendance_tracker.Numerics.{Numerics}
use attendance_tracker.Registry
use attendance_tracker.Registry.Loaded
use attendance_tracker.Registry.Isolated.{UniqueRows}
use attendance_tracker.Registration

-- A vector comes back from its bytes, of which there are four for each of the `dim` floats.
pub record Encodes (v : Numerics) (dim : ℕ) : Type 0 where
  pub some_floats : 0 < dim
  pub four_each : (x : v.Embedding) → length (v.to_bytes x) ≡ dim * 4
  pub back : (x : v.Embedding) → v.of_bytes (v.to_bytes x) ≡ x

module _ (v : Numerics) (c : Registry.IndexConfig) (encodes : Encodes v c.embedding_dim) where
  pub decode-to_bytes : (x : v.Embedding) → Registry.decode_vector v c (v.to_bytes x) ≡ some x
  unfolding Registry.decode_vector
  decode-to_bytes x = ground (arith, encodes.some_floats, encodes.four_each x, encodes.back x)

module _ (v : Numerics) (c : Registry.IndexConfig) where
  pub first_vector-snoc :
      (w : ℕ) (e : Embedding) (y : v.Embedding) (es : List Embedding)
      → Registry.decode_vector v c e.vector ≡ some y
      → find (λ (x : Embedding). x.user_id == e.user_id) es ≡ none
      → Loaded.first_vector v c w (es ++ e ∷ [])
        ≡ (if w == e.user_id then some y else Loaded.first_vector v c w es)
  first_vector-snoc w e y [] d h = ground (arith, d)
  first_vector-snoc w e y (x ∷ es) d h = elim (Bool-cases (x.user_id == e.user_id)) [
    | inl f ↦ absurd (ground (arith, f, h))
    | inr f ↦ elim (Bool-cases (x.user_id == w)) [
      | inr g ↦ ground (arith, d, f, g, h, first_vector-snoc w e y es d (ground (arith, f, h)))
      | inl g ↦ elim (Option-cases (Registry.decode_vector v c x.vector)) [
        | inl k ↦ ground (arith, d, f, g, k, first_vector-snoc w e y es d (ground (arith, f, h)))
        | inr (z, k) ↦ ground (arith, d, f, g, k)
      ]
    ]
  ]

  module _ (u : ℕ) (f : Embedding → Embedding) (y : v.Embedding)
      (keeps : (e : Embedding) → (f e).user_id ≡ e.user_id)
      (decodes : (e : Embedding) → Registry.decode_vector v c (f e).vector ≡ some y) where
    abbrev updated : List Embedding → List Embedding
    updated es = update_where (λ (e : Embedding). e.user_id == u) f es

    first_vector_other :
        (w : ℕ) (es : List Embedding)
        → (w == u) ≡ false
        → Loaded.first_vector v c w (updated es) ≡ Loaded.first_vector v c w es
    first_vector_other w [] d = refl
    first_vector_other w (x ∷ es) d = elim (Bool-cases (x.user_id == u)) [
      | inl e ↦ ground (arith, d, e, keeps x, first_vector_other w es d)
      | inr e ↦ ground (arith, d, e, first_vector_other w es d)
    ]

    first_vector_own :
        (old : Embedding) (es : List Embedding)
        → find (λ (x : Embedding). x.user_id == u) es ≡ some old
        → Loaded.first_vector v c u (updated es) ≡ some y
    first_vector_own old [] h = absurd (ground (arith, h))
    first_vector_own old (x ∷ es) h = elim (Bool-cases (x.user_id == u)) [
      | inl e ↦ ground (arith, e, keeps x, decodes x)
      | inr e ↦ ground (arith, e, h, first_vector_own old es (ground (arith, e, h)))
    ]

    pub first_vector-update :
        (w : ℕ) (old : Embedding) (es : List Embedding)
        → find (λ (x : Embedding). x.user_id == u) es ≡ some old
        → Loaded.first_vector v c w (update_where (λ (e : Embedding). e.user_id == u) f es)
          ≡ (if w == u then some y else Loaded.first_vector v c w es)
    first_vector-update w old es h = elim (Bool-cases (w == u)) [
      | inl e ↦
          ap (λ i. Loaded.first_vector v c i (updated es)) ((==_iff w u).0 e)
          ∙ first_vector_own old es h
          ∙ ground (arith, e)
      | inr e ↦ first_vector_other w es e ∙ ground (arith, e)
    ]

  pub first_vector-delete :
      (w u : ℕ) (es : List Embedding)
      → Loaded.first_vector v c w (delete_where (λ e. e.user_id == u) es)
        ≡ (if w == u then none else Loaded.first_vector v c w es)
  first_vector-delete w u [] = ground arith
  first_vector-delete w u (x ∷ es) = elim (Bool-cases (x.user_id == u)) [
    | inl e ↦ ground (arith, e, first_vector-delete w u es)
    | inr e ↦ ground (arith, e, first_vector-delete w u es)
  ]

  -- the vectors after a write
  pub first_vector-write :
      (u : ℕ) (x : v.Embedding) (db : Db) (num_samples : ℕ) (vector : List ℕ) (w : ℕ)
      → Registry.decode_vector v c vector ≡ some x
      → Loaded.first_vector v c w
          (Registration.write_embedding u vector num_samples
            (Registration.embedding_by_user u db)
            db).embeddings
        ≡ (if w == u then some x else Loaded.first_vector v c w db.embeddings)
  first_vector-write u x db n vector w d =
      elim (Option-cases (Registration.embedding_by_user u db)) [
        | inl e ↦ rw e (
            first_vector-snoc w
              (record { user_id = u; vector = vector; num_samples = n; version = 1 }) x
              db.embeddings d e)
        | inr (old, e) ↦ rw e (
            first_vector-update u
              (λ (y : Embedding). record y {
                vector = vector;
                num_samples = n;
                version = y.version + 1;
              })
              x (λ y. refl) (λ y. d) w old db.embeddings e)
      ]

-- the rows of a user after a write
count-none :
    (u : ℕ) (es : List Embedding)
    → find (λ (x : Embedding). x.user_id == u) es ≡ none
    → count (λ (x : Embedding). x.user_id == u) es ≡ 0
count-none u [] h = refl
count-none u (x ∷ es) h = elim (Bool-cases (x.user_id == u)) [
  | inl e ↦ absurd (ground (arith, e, h))
  | inr e ↦ ground (arith, e, count-none u es (ground (arith, e, h)))
]

count-snoc :
    (w : ℕ) (es : List Embedding) (e : Embedding)
    → count (λ (x : Embedding). x.user_id == w) (es ++ e ∷ [])
      ≡ count (λ (x : Embedding). x.user_id == w) es + (if e.user_id == w then 1 else 0)
count-snoc w [] e = omega arith
count-snoc w (x ∷ es) e = omega (arith, count-snoc w es e)

count-update :
    (w u : ℕ) (f : Embedding → Embedding) (es : List Embedding)
    → ((e : Embedding) → (f e).user_id ≡ e.user_id)
    → count (λ (x : Embedding). x.user_id == w) (update_where (λ e. e.user_id == u) f es)
      ≡ count (λ (x : Embedding). x.user_id == w) es
count-update w u f [] keeps = refl
count-update w u f (x ∷ es) keeps = elim (Bool-cases (x.user_id == u)) [
  | inl e ↦ ground (arith, e, keeps x, count-update w u f es keeps)
  | inr e ↦ ground (arith, e, count-update w u f es keeps)
]

pub count-delete :
    (w u : ℕ) (es : List Embedding)
    → count (λ (x : Embedding). x.user_id == w) (delete_where (λ e. e.user_id == u) es)
      ≤ count (λ (x : Embedding). x.user_id == w) es
count-delete w u [] = omega arith
count-delete w u (x ∷ es) = elim (Bool-cases (x.user_id == u)) [
  | inl e ↦ ground (arith, e, count-delete w u es)
  | inr e ↦ ground (arith, e, count-delete w u es)
]

pub write-UniqueRows :
    (u n : ℕ) (vector : List ℕ) (db : Db)
    → UniqueRows db
    → UniqueRows (Registration.write_embedding u vector n (Registration.embedding_by_user u db) db)
write-UniqueRows u n vector db unique w =
    elim (Option-cases (Registration.embedding_by_user u db)) [
      | inl e ↦
          let row : Embedding = record {
            user_id = u;
            vector = vector;
            num_samples = n;
            version = 1;
          } in
          let more = count-snoc w db.embeddings row in
          elim (Bool-cases (u == w)) [
            | inl f ↦
                let nobody = count-none u db.embeddings e in
                let same =
                  ap (λ i. count (λ (x : Embedding). x.user_id == i) db.embeddings)
                    ((==_iff u w).0 f) in
                rw e (ground (arith, f, more, nobody, same))
            | inr f ↦ rw e (ground (arith, f, more, unique w))
          ]
      | inr (old, e) ↦ rw e (
          ground (
            arith,
            unique w,
            count-update w u
                (λ (y : Embedding). record y {
                  vector = vector;
                  num_samples = n;
                  version = y.version + 1;
                })
                db.embeddings (λ y. refl),
          ))
    ]

-- the row of a user after a write
pub row-write :
    (u n : ℕ) (vector : List ℕ) (db : Db)
    → Registration.embedding_by_user u
        (Registration.write_embedding u vector n (Registration.embedding_by_user u db) db)
      ≡ some (record {
        user_id = u;
        vector = vector;
        num_samples = n;
        version = Registration.next_version (Registration.embedding_by_user u db);
      })
row-write u n vector db = elim (Option-cases (Registration.embedding_by_user u db)) [
  | inl e ↦
      let row : Embedding = record { user_id = u; vector = vector; num_samples = n; version = 1 } in
      rw e (
        ground (arith, e, find-append (λ (x : Embedding). x.user_id == u) db.embeddings (row ∷ [])))
  | inr (old, e) ↦
      let f =
        λ (y : Embedding). record y { vector = vector; num_samples = n; version = y.version + 1 } in
      let p = λ (x : Embedding). x.user_id == u in
      let held = find_holds p db.embeddings old e in
      rw e (
        find-update_where p p f db.embeddings (λ y. refl)
        ∙ ground (arith, e, held, (==_iff old.user_id u).0 held))
]
