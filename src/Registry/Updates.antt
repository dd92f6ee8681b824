-- ===== src/Registry/Updates.antt =====
-- What a lookup finds after an update and after a removal, and a removal that comes between the two
-- steps of a load.
use attendance_tracker.Prelude.{
  ℕ, ◌≡◌, refl, ap, Option, none, some, inl, inr, ◌==◌, if◌then◌else◌, arith, Option-cases,
  Bool-cases, ==_iff,
}
use attendance_tracker.Database.Rows.{Db}
use attendance_tracker.Database.Session.{ok}
use attendance_tracker.Numerics.{Numerics}
use attendance_tracker.Matcher
use attendance_tracker.Matcher.Aligned
use attendance_tracker.Registry
use attendance_tracker.Registry.Loaded
use attendance_tracker.Registry.Isolated.{IsSound, get-put}

module _ (v : Numerics) (c : Registry.IndexConfig) where
  -- the vector that a match in an organization can find for a user
  abbrev pub held : ℕ → ℕ → Registry.Registry v → Option v.Embedding
  held org u reg = elim (Registry.get org reg) [ none ↦ none | some m ↦ Aligned.vector_of v u m ]

  -- the vector after the organization is loaded from the tables, where it is not yet
  abbrev pub held_or_stored : ℕ → ℕ → Db → Registry.Registry v → Option v.Embedding
  held_or_stored org u db reg = elim (Registry.get org reg) [
    | none ↦ Loaded.template v c org u db
    | some m ↦ Aligned.vector_of v u m
  ]

  held-put :
      (o w org : ℕ) (m : Matcher.Matcher v) (reg : Registry.Registry v)
      → held o w (Registry.put org m reg)
        ≡ (if org == o then Aligned.vector_of v w m else held o w reg)
  held-put o w org m reg = ground (arith, get-put o org m reg)

  -- With a vector for each user of a loaded organization, an update of a user cannot fail. It sets
  -- the vector of the user, loads the organization first where it is not loaded, keeps the vectors
  -- of the organization's other users and those of other organizations.
  pub upsert_user_lem :
      (org u : ℕ) (x : v.Embedding) (db : Db) (reg : Registry.Registry v)
      → ((m : Matcher.Matcher v) → Registry.get org reg ≡ some m → Aligned.IsAligned v m)
      → ((Registry.upsert_user v c org u x db reg).0 ≡ ok tt)
        × ((o w : ℕ)
            → held o w (Registry.upsert_user v c org u x db reg).1 ≡ (
                if org == o
                then (if w == u then some x else held_or_stored org w db reg)
                else held o w reg))
  unfolding Registry.upsert_user Registry.get_matcher
  upsert_user_lem org u x db reg aligned = elim (Option-cases (Registry.get org reg)) [
    | inr (m, e) ↦ (
      ground (arith, e),
      λ o w. ground (
        arith,
        e,
        held-put o w org (Matcher.update_embedding v u x m) reg,
        (Aligned.update_embedding_lem v u x m (aligned m e)).1 w,
      ),
    )
    | inl e ↦ elim (Loaded.load_org_lem v c org db) [
      | inl (l, nobody) ↦ (
        ground (arith, e, l),
        λ o w. ground (
          arith,
          e,
          l,
          nobody w,
          held-put o w org (Matcher.update_embedding v u x (Matcher.new_matcher v c.use_faiss)) reg,
          (Aligned.update_embedding_lem v u x (Matcher.new_matcher v c.use_faiss) refl).1 w,
        ),
      )
      | inr (m, l, loaded) ↦ (
        ground (arith, e, l),
        λ o w. ground (
          arith,
          e,
          l,
          loaded.templates w,
          held-put o w org (Matcher.update_embedding v u x m) (Registry.put org m reg),
          held-put o w org m reg,
          (Aligned.update_embedding_lem v u x m loaded.aligned).1 w,
        ),
      )
    ]
  ]

  -- A removal leaves the user without a vector in the organization, and keeps every other vector.
  pub remove_from_lem :
      (org u : ℕ) (db : Db) (reg : Registry.Registry v)
      → IsSound v c db reg
      → (o w : ℕ)
      → held o w (Registry.remove_from v c org u reg)
        ≡ (if org == o then (if w == u then none else held o w reg) else held o w reg)
  unfolding Registry.remove_from
  remove_from_lem org u db reg s o w = elim (Option-cases (Registry.get org reg)) [
    | inl e ↦ elim (Bool-cases (org == o)) [
      | inl k ↦ ground (arith, e, k, ap (λ i. Registry.get i reg) ((==_iff org o).0 k))
      | inr k ↦ ground (arith, e, k)
    ]
    | inr (m, e) ↦
        let f = (s org m e).fine in
        let removed = (Aligned.remove_user_lem v u m f.aligned (f.once u)).1 w in
        elim (Bool-cases (org == o)) [
          | inl k ↦ ground (
            arith,
            e,
            k,
            removed,
            held-put o w org (Matcher.remove_user v u m).0 reg,
            ap (λ i. Registry.get i reg) ((==_iff org o).0 k),
          )
          | inr k ↦ ground (arith, e, k, held-put o w org (Matcher.remove_user v u m).0 reg)
        ]
  ]

  -- Where an organization is not loaded, and a load has read its rows, a removal that comes before
  -- the load stores its matcher does nothing: the matcher that is stored has the vector of the
  -- user.
  pub removal_during_load :
      (org u : ℕ) (x : v.Embedding) (db : Db) (reg : Registry.Registry v)
      → Registry.get org reg ≡ none
      → Loaded.template v c org u db ≡ some x
      → let removed = Registry.remove_from v c org u reg in
        (removed ≡ reg)
        × (held org u (Registry.store_loaded v c org (Registry.load_org v c org db) removed).1
            ≡ some x)
  unfolding Registry.remove_from
  removal_during_load org u x db reg e own = elim (Loaded.load_org_lem v c org db) [
    | inl (l, nobody) ↦ absurd (ground (arith, own, nobody u))
    | inr (m, l, loaded) ↦
        (ground (arith, e), ground (arith, e, l, own, loaded.templates u, held-put org u org m reg))
  ]
