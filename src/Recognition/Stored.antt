-- ===== src/Recognition/Stored.antt =====
-- What a match of `recognize` says of the table of embeddings.
use attendance_tracker.Prelude.{
  ℕ, zero, suc, ◌≡◌, ◌≤◌, ap, ◌∙◌, some, true, false, List, [], ◌∷◌, ◌==◌, get_elem?, inl, inr,
  arith, Option-cases, Bool-cases, ==_iff, ◌&&◌, find_holds,
}
use attendance_tracker.Database.Rows.{Db, User}
use attendance_tracker.Database.Session.{ok}
use attendance_tracker.Numerics.{Numerics}
use attendance_tracker.Matcher
use attendance_tracker.Matcher.Aligned
use attendance_tracker.Matcher.Sound
use attendance_tracker.OrgSettings
use attendance_tracker.Registry
use attendance_tracker.Registry.Loaded
use attendance_tracker.Registry.Isolated.{IsSound, UniqueRows, get-put}
use attendance_tracker.Registry.Kept
use attendance_tracker.Recognition
use attendance_tracker.Recognition.Outcome.{Match}

some_occurrence : (u i : ℕ) (xs : List ℕ) → get_elem? xs i ≡ some u → 1 ≤ Aligned.occurrences u xs
some_occurrence u i [] h = absurd (ground (arith, h))
some_occurrence u zero (x ∷ xs) h = ground (arith, h)
some_occurrence u (suc i) (x ∷ xs) h = ground (arith, some_occurrence u i xs h)

pub vector_at_position :
    {E : Type 0} (u i : ℕ) (e : E) (xs : List ℕ) (es : List E)
    → Aligned.occurrences u xs ≤ 1
    → get_elem? xs i ≡ some u
    → get_elem? es i ≡ some e
    → Aligned.vector_at u xs es ≡ some e
vector_at_position u i e [] es once h g = absurd (ground (arith, h))
vector_at_position u i e (x ∷ xs) [] once h g = absurd (ground (arith, g))
vector_at_position u zero e (x ∷ xs) (y ∷ es) once h g = ground (arith, h, g)
vector_at_position u (suc i) e (x ∷ xs) (y ∷ es) once h g = elim (Bool-cases (x == u)) [
  | inl f ↦ absurd (ground (arith, f, once, some_occurrence u i xs h))
  | inr f ↦ ground (arith, f, vector_at_position u i e xs es (ground (arith, f, once)) h g)
]

module _ (v : Numerics) (c : Recognition.RecognitionConfig v) where
  matcher_stored :
      (org : ℕ) (db : Db) (reg : Registry.Registry v) (m : Matcher.Matcher v)
      → (Registry.get_matcher v c.index org db reg).0 ≡ ok (some m)
      → Registry.get org (Registry.get_matcher v c.index org db reg).1 ≡ some m
  unfolding Registry.get_matcher
  matcher_stored org db reg m h = elim (Option-cases (Registry.get org reg)) [
    | inr (n, e) ↦ ground (arith, e, h)
    | inl e ↦ elim (Loaded.load_org_lem v c.index org db) [
      | inl (l, nobody) ↦ absurd (ground (arith, e, l, h))
      | inr (n, l, loaded) ↦ ground (arith, e, l, h, get-put org org n reg)
    ]
  ]

  pub numpy_match :
      (m : Matcher.Matcher v) (q : v.Embedding) (t : v.Float) (u : ℕ) (score : v.Float)
      → m.use_faiss ≡ false
      → Matcher.match_user v q t 1 m ≡ ok (some (u, score))
      → Matcher.match_numpy v q t 1 m ≡ ok (some (u, score))
  unfolding Matcher.match_user
  numpy_match m q t u score off h = ground (arith, off, h)

  -- Where the registry agrees with the tables, as it does after any steps of `Registry.Steps`, and
  -- the matcher is searched without FAISS: the score of a match of `recognize` is that of the face
  -- and of the first vector of the right size in the rows of the matched user, and it reaches the
  -- request's threshold.
  pub recognized_by_template :
      (now org : ℕ) (request : Recognition.RecognizeRequest v) (w : Recognition.World v)
      (s : OrgSettings.LoadedSettings v) (face : v.Image) (user : User) (score : v.Float)
      (m : Match v c now org request w s face user score)
      → UniqueRows w.session.saved
      → IsSound v c.index w.session.saved w.registry
      → m.matcher.use_faiss ≡ false
      → (x : v.Embedding) × (Loaded.template v c.index org user.id w.session.saved ≡ some x)
        × (score ≡ v.dot x (v.embed face))
        × (v.at_least score (Recognition.threshold_for v c request.threshold s) ≡ true)
  recognized_by_template now org request w s face user score m unique sound off =
      let db = w.session.saved in
      let kept = Kept.get_matcher-IsSound v c.index org db w.registry unique sound in
      let good = kept org m.matcher (matcher_stored org db w.registry m.matcher m.known) in
      let (i, x, known, there, same, enough) =
        Sound.match_numpy_sound v (v.embed face) (Recognition.threshold_for v c request.threshold s)
          1 m.matcher m.user_id score
          (numpy_match m.matcher (v.embed face) (Recognition.threshold_for v c request.threshold s)
            m.user_id score off m.best) in
      let held = good.held m.user_id x (
        vector_at_position m.user_id i x m.matcher.user_ids (Matcher.rows v m.matcher)
          (good.fine.once m.user_id) known there) in
      let id : user.id ≡ m.user_id = (==_iff user.id m.user_id).0 (
        ground (
          arith,
          find_holds (λ (u : User). u.id == m.user_id && u.is_active) w.session.working.users user
              m.found,
        )) in
      (x, ap (λ j. Loaded.template v c.index org j db) id ∙ held, same, enough)
