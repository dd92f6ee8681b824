-- ===== src/Registry.antt =====
-- src/inference/index_manager.py: the matcher of each organization, loaded from the table of
-- embeddings. Its locks are left out: `get_matcher` is two steps, the read of the rows and the
-- store of the matcher, which other requests may come between. Log lines, metrics and `user_data`,
-- and the conversion of ids between UUID and text, are left out.
pub mod Isolated
pub mod Kept
pub mod Loaded
pub mod Refresh
pub mod Steps
pub mod Updates
use attendance_tracker.Prelude.{
  ℕ, ◌+◌, ◌/◌, ◌%◌, Option, none, some, Bool, not, ◌&&◌, ◌||◌, List, [], ◌∷◌, ◌++◌, ⊤, ◌==◌,
  if◌then◌else◌, find, map, length, any, is_some,
}
use attendance_tracker.Database.Rows.{Db, User, Embedding, Organization}
use attendance_tracker.Database.Session.{Result, ok, err}
use attendance_tracker.Numerics.{Numerics}
use attendance_tracker.Matcher.{Matcher, new_matcher, build, update_embedding, remove_user}

-- `settings.model.embedding_dim`, `settings.features.enable_faiss_matching`
pub record IndexConfig : Type 0 where
  pub embedding_dim : ℕ
  pub use_faiss : Bool

-- `_matchers`, a dict in the order of insertion
abbrev pub Registry : Numerics → Type 0
Registry v = List (ℕ × Matcher v)

abbrev pub get : {A : Type 0} → ℕ → List (ℕ × A) → Option A
get org [] = none
get org ((k, m) ∷ rest) = let later = get org rest in if k == org then some m else later

abbrev pub put : {A : Type 0} → ℕ → A → List (ℕ × A) → List (ℕ × A)
put org m [] = (org, m) ∷ []
put org m ((k, n) ∷ rest) =
    let later = put org m rest in if k == org then (k, m) ∷ rest else (k, n) ∷ later

abbrev pub pop : {A : Type 0} → ℕ → List (ℕ × A) → List (ℕ × A)
pop org [] = []
pop org ((k, n) ∷ rest) = let later = pop org rest in if k == org then later else (k, n) ∷ later

module _ (v : Numerics) (c : IndexConfig) where
  -- `decode_vector`
  unfoldable pub decode_vector : List ℕ → Option v.Embedding
  decode_vector raw =
      if length raw == 0
      then none
      else if not (length raw % 4 == 0)
      then none
      else if not (length raw / 4 == c.embedding_dim)
      then none
      else some (v.of_bytes raw)

  -- the user of an embedding, where it is an active one of the organization
  abbrev pub owner : ℕ → ℕ → Db → Option User
  owner org user_id db =
      find (λ u. (u.id == user_id && u.organization_id == org) && u.is_active) db.users

  -- the rows of the query of `_load_org`
  abbrev pub org_rows : ℕ → Db → List Embedding → List (ℕ × List ℕ)
  org_rows org db [] = []
  org_rows org db (e ∷ es) =
      let rest = org_rows org db es in
      elim (owner org e.user_id db) [ none ↦ rest | some u ↦ (e.user_id, e.vector) ∷ rest ]

  -- the rows with a vector of the right size
  abbrev pub decoded : List (ℕ × List ℕ) → List (ℕ × v.Embedding)
  decoded [] = []
  decoded ((u, raw) ∷ rows) =
      let rest = decoded rows in elim (decode_vector raw) [ none ↦ rest | some x ↦ (u, x) ∷ rest ]

  abbrev pub ids_of : List (ℕ × v.Embedding) → List ℕ
  ids_of = map (λ (u, x). u)

  abbrev pub vectors_of : List (ℕ × v.Embedding) → List v.Embedding
  vectors_of = map (λ (u, x). x)

  abbrev pub build_pairs : List (ℕ × v.Embedding) → Result (Matcher v)
  build_pairs pairs = build v (vectors_of pairs) (ids_of pairs) (new_matcher v c.use_faiss)

  abbrev pub some_built : Result (Matcher v) → Result (Option (Matcher v))
  some_built (ok m) = ok (some m)
  some_built (err e) = err e

  -- `_load_org`, after its query
  abbrev pub matcher_of : List (ℕ × v.Embedding) → Result (Option (Matcher v))
  matcher_of [] = ok none
  matcher_of (p ∷ pairs) = some_built (build_pairs (p ∷ pairs))

  -- `_load_org`
  unfoldable pub load_org : ℕ → Db → Result (Option (Matcher v))
  unfolding decode_vector
  load_org org db = matcher_of (decoded (org_rows org db db.embeddings))

  -- the store of a loaded matcher
  abbrev pub store_loaded :
      ℕ → Result (Option (Matcher v)) → Registry v → Result (Option (Matcher v)) × Registry v
  store_loaded org (ok (some m)) reg = (ok (some m), put org m reg)
  store_loaded org (ok none) reg = (ok none, reg)
  store_loaded org (err e) reg = (err e, reg)

  -- `get_matcher`, on the stored tables
  unfoldable pub get_matcher : ℕ → Db → Registry v → Result (Option (Matcher v)) × Registry v
  unfolding load_org
  get_matcher org db reg = elim (get org reg) [
    | some m ↦ (ok (some m), reg)
    | none ↦ store_loaded org (load_org org db) reg
  ]

  -- the change of the matcher, a new one if there is none
  abbrev pub upsert_into :
      ℕ → ℕ → v.Embedding → Result (Option (Matcher v)) × Registry v → Result ⊤ × Registry v
  upsert_into org user_id x (err e, reg) = (err e, reg)
  upsert_into org user_id x (ok none, reg) =
      (ok tt, put org (update_embedding v user_id x (new_matcher v c.use_faiss)) reg)
  upsert_into org user_id x (ok (some m), reg) =
      (ok tt, put org (update_embedding v user_id x m) reg)

  -- `upsert_user`
  unfoldable pub upsert_user : ℕ → ℕ → v.Embedding → Db → Registry v → Result ⊤ × Registry v
  unfolding get_matcher
  upsert_user org user_id x db reg = upsert_into org user_id x (get_matcher org db reg)

  -- `MatcherRegistry.remove_user`
  unfoldable pub remove_from : ℕ → ℕ → Registry v → Registry v
  remove_from org user_id reg = elim (get org reg) [
    | none ↦ reg
    | some m ↦ put org (remove_user v user_id m).0 reg
  ]

  -- `invalidate_org`
  unfoldable pub invalidate_org : ℕ → Registry v → Registry v
  invalidate_org org reg = pop org reg

  -- the organization of an embedding, where it and the user are active
  abbrev pub active_org : Db → User → Bool
  active_org db u = any (λ o. o.id == u.organization_id && o.is_active) db.organizations

  -- the rows of the query of `refresh_all`
  abbrev pub all_rows : Db → List Embedding → List (ℕ × ℕ × List ℕ)
  all_rows db [] = []
  all_rows db (e ∷ es) =
      let rest = all_rows db es in
      elim (find (λ u. u.id == e.user_id && u.is_active && active_org db u) db.users) [
        | none ↦ rest
        | some u ↦ (u.organization_id, e.user_id, e.vector) ∷ rest
      ]

  abbrev pub pairs_of : Option (List (ℕ × v.Embedding)) → List (ℕ × v.Embedding)
  pairs_of none = []
  pairs_of (some pairs) = pairs

  -- the loop over the rows, which fills `grouped`
  pub grouped :
      List (ℕ × ℕ × List ℕ) → List (ℕ × List (ℕ × v.Embedding)) → List (ℕ × List (ℕ × v.Embedding))
  unfolding decode_vector
  grouped [] groups = groups
  grouped ((org, u, raw) ∷ rows) groups = elim (decode_vector raw) [
    | none ↦ grouped rows groups
    | some x ↦ grouped rows (put org (pairs_of (get org groups) ++ (u, x) ∷ []) groups)
  ]

  abbrev pub with_built : ℕ → Result (Matcher v) → Result (Registry v) → Result (Registry v)
  with_built org (err e) rest = err e
  with_built org (ok m) (err e) = err e
  with_built org (ok m) (ok rest) = ok ((org, m) ∷ rest)

  -- a matcher for each group
  abbrev pub build_groups : List (ℕ × List (ℕ × v.Embedding)) → Result (Registry v)
  build_groups [] = ok []
  build_groups ((org, pairs) ∷ groups) =
      let rest = build_groups groups in with_built org (build_pairs pairs) rest

  -- `refresh_all`: the matchers that replace the old ones
  unfoldable pub refresh_all : Db → Result (Registry v)
  unfolding grouped
  refresh_all db = build_groups (grouped (all_rows db db.embeddings) [])

  -- `total_indexed_users`
  abbrev pub total_indexed_users : Registry v → ℕ
  total_indexed_users [] = 0
  total_indexed_users ((org, m) ∷ reg) = length m.user_ids + total_indexed_users reg

  -- `shutdown`
  abbrev pub shutdown : Registry v → Registry v
  shutdown reg = []
