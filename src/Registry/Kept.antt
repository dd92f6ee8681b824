-- ===== src/Registry/Kept.antt =====
-- Every change of the registry keeps it in agreement with the tables.
use attendance_tracker.Prelude.{
  ℕ, ◌≡◌, refl, sym, ap, ◌∙◌, subst, none, some, false, ◌&&◌, List, [], ◌∷◌, inl, inr, ◌==◌,
  if◌then◌else◌, arith, Option-cases, Bool-cases, ==_iff,
}
use attendance_tracker.Database.Rows.{Db}
use attendance_tracker.Database.Session.{ok}
use attendance_tracker.Numerics.{Numerics}
use attendance_tracker.Matcher
use attendance_tracker.Matcher.Aligned
use attendance_tracker.Registry
use attendance_tracker.Registry.Loaded
use attendance_tracker.Registry.Isolated.{IsSound, Sound, Fine, UniqueRows, SameButFor, get-put}
use attendance_tracker.Registry.Isolated

module _ (v : Numerics) (c : Registry.IndexConfig) where
  matcher_of-ids :
      (ps : List (ℕ × v.Embedding)) (m : Matcher.Matcher v)
      → Registry.matcher_of v c ps ≡ ok (some m)
      → m.user_ids ≡ Registry.ids_of v c ps
  unfolding Matcher.build
  matcher_of-ids [] m h = absurd (ground (arith, h))
  matcher_of-ids (p ∷ ps) m h = ground (
    arith,
    h,
    Loaded.length-map (λ (q : ℕ × v.Embedding). q.0) ps,
    Loaded.length-map (λ (q : ℕ × v.Embedding). q.1) ps,
  )

  load_org-Fine :
      (org : ℕ) (db : Db) (m : Matcher.Matcher v)
      → UniqueRows db
      → Aligned.IsAligned v m
      → Registry.load_org v c org db ≡ ok (some m)
      → Fine v c m
  unfolding Registry.load_org
  load_org-Fine org db m unique a h = record {
    aligned = a;
    once = λ u.
        let ids = matcher_of-ids _ m h in
        ground (arith, ids, Isolated.occurrences-pairs v c u org db db.embeddings, unique u);
  }

  same_matcher :
      (db : Db) (org o : ℕ) (m n : Matcher.Matcher v)
      → org ≡ o
      → some m ≡ some n
      → Sound v c org db m
      → Sound v c o db n
  same_matcher db org o m n e f s =
      subst (λ k. Sound v c k db n) e (subst (λ k. Sound v c org db k) (ground (arith, f)) s)

  put-IsSound :
      (org : ℕ) (db : Db) (m : Matcher.Matcher v) (reg : Registry.Registry v)
      → Sound v c org db m
      → ((o : ℕ) (n : Matcher.Matcher v)
          → (o == org) ≡ false
          → Registry.get o reg ≡ some n
          → Sound v c o db n)
      → IsSound v c db (Registry.put org m reg)
  put-IsSound org db m reg s others o n h = elim (Bool-cases (org == o)) [
    | inl e ↦
        same_matcher db org o m n ((==_iff org o).0 e) (ground (arith, e, h, get-put o org m reg)) s
    | inr e ↦ others o n (ground (arith, e)) (ground (arith, e, h, get-put o org m reg))
  ]

  pub get_matcher-IsSound :
      (org : ℕ) (db : Db) (reg : Registry.Registry v)
      → UniqueRows db
      → IsSound v c db reg
      → IsSound v c db (Registry.get_matcher v c org db reg).1
  unfolding Registry.get_matcher
  get_matcher-IsSound org db reg unique s = elim (Option-cases (Registry.get org reg)) [
    | inl e ↦ elim (Loaded.load_org_lem v c org db) [
      | inl (l, nobody) ↦ λ o n h. s o n (ground (arith, e, l, h))
      | inr (m, l, loaded) ↦ λ o n h.
          put-IsSound org db m reg
            (record {
              fine = load_org-Fine org db m unique loaded.aligned l;
              held = λ u x g. sym (loaded.templates u) ∙ g;
            })
            (λ o' n' d g. s o' n' g) o n (ground (arith, e, l, h))
    ]
    | inr (m, e) ↦ λ o n h. s o n (ground (arith, e, h))
  ]

  other_user : (org o u w : ℕ) → (w == u) ≡ false → (org == org && w == u) ≡ false
  other_user org o u w e = ground (arith, e)

  -- the matchers of the other organizations, after a change that concerns one user
  others_kept :
      (org u : ℕ) (db db' : Db) (reg : Registry.Registry v)
      → IsSound v c db reg
      → SameButFor v c org u db db'
      → (o : ℕ) (n : Matcher.Matcher v) → (o == org) ≡ false
      → Registry.get o reg ≡ some n
      → Sound v c o db' n
  others_kept org u db db' reg s same o n d h = record {
    fine = (s o n h).fine;
    held = λ w x g. sym (same o w (ground (arith, d))) ∙ (s o n h).held w x g;
  }

  pub upsert-IsSound :
      (org u : ℕ) (x : v.Embedding) (db db' : Db) (reg : Registry.Registry v)
      → UniqueRows db'
      → SameButFor v c org u db db'
      → Loaded.template v c org u db' ≡ some x
      → IsSound v c db reg
      → IsSound v c db' (Registry.upsert_user v c org u x db' reg).1
  unfolding Registry.upsert_user Registry.get_matcher
  upsert-IsSound org u x db db' reg unique same own s = elim (Option-cases (Registry.get org reg)) [
    | inr (m, e) ↦ λ o n h.
        put-IsSound org db' (Matcher.update_embedding v u x m) reg
          (Isolated.update_embedding-Sound v c org u x db' m (s org m e).fine
            (λ w y d g. sym (same org w (ground (arith, d))) ∙ (s org m e).held w y g) own)
          (others_kept org u db db' reg s same) o n (ground (arith, e, h))
    | inl e ↦ elim (Loaded.load_org_lem v c org db') [
      | inl (l, nobody) ↦ λ o n h.
          put-IsSound org db' (Matcher.update_embedding v u x (Matcher.new_matcher v c.use_faiss))
            reg
            (Isolated.update_embedding-Sound v c org u x db' (Matcher.new_matcher v c.use_faiss)
              (record { aligned = refl; once = λ w. omega arith })
              (λ w y d g. absurd (ground (arith, g))) own)
            (others_kept org u db db' reg s same) o n (ground (arith, e, l, h))
      | inr (m, l, loaded) ↦ λ o n h.
          put-IsSound org db' (Matcher.update_embedding v u x m) (Registry.put org m reg)
            (Isolated.update_embedding-Sound v c org u x db' m
              (load_org-Fine org db' m unique loaded.aligned l)
              (λ w y d g. sym (loaded.templates w) ∙ g) own)
            (λ o' n' d g.
              others_kept org u db db' reg s same o' n' d
                (ground (arith, d, g, get-put o' org m reg)))
            o n (ground (arith, e, l, h))
    ]
  ]

  pub remove-IsSound :
      (org u : ℕ) (db db' : Db) (reg : Registry.Registry v)
      → SameButFor v c org u db db'
      → IsSound v c db reg
      → IsSound v c db' (Registry.remove_from v c org u reg)
  unfolding Registry.remove_from
  remove-IsSound org u db db' reg same s = elim (Option-cases (Registry.get org reg)) [
    | inl e ↦ λ o n h. elim (Bool-cases (o == org)) [
      | inl k ↦ absurd (ground (arith, e, h, ap (λ i. Registry.get i reg) ((==_iff o org).0 k)))
      | inr k ↦ others_kept org u db db' reg s same o n k (ground (arith, e, h))
    ]
    | inr (m, e) ↦ λ o n h.
        put-IsSound org db' (Matcher.remove_user v u m).0 reg
          (record {
            fine = Isolated.remove_user-Fine v c u m (s org m e).fine;
            held = λ w x g.
                let f = (s org m e).fine in
                let (d, old) =
                  Isolated.none_or v c u w x (Aligned.vector_of v w m)
                    (sym ((Aligned.remove_user_lem v u m f.aligned (f.once u)).1 w) ∙ g) in
                sym (same org w (ground (arith, d))) ∙ (s org m e).held w x old;
          })
          (others_kept org u db db' reg s same) o n (ground (arith, e, h))
  ]

  get-pop :
      (org : ℕ) (reg : Registry.Registry v) (o : ℕ)
      → Registry.get o (Registry.pop org reg) ≡ (if org == o then none else Registry.get o reg)
  get-pop org [] o = ground arith
  get-pop org ((k, m) ∷ reg) o = ground (arith, get-pop org reg o)

  pub pop-IsSound :
      (org : ℕ) (db : Db) (reg : Registry.Registry v)
      → IsSound v c db reg
      → IsSound v c db (Registry.invalidate_org v c org reg)
  unfolding Registry.invalidate_org
  pop-IsSound org db reg s o n h = elim (Bool-cases (org == o)) [
    | inl e ↦ absurd (ground (arith, e, h, get-pop org reg o))
    | inr e ↦ s o n (ground (arith, e, h, get-pop org reg o))
  ]
