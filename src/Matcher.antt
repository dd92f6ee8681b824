-- ===== src/Matcher.antt =====
-- src/inference/matcher.py: the matcher of one organization, with NumPy and with FAISS. `user_data`
-- is stored and never read for a match, and is left out; timings and log lines too.
pub mod Aligned
pub mod Sound
use attendance_tracker.Prelude.{
  ℕ, zero, suc, ◌+◌, ◌-◌, min, String, Option, none, some, Bool, true, false, not, ◌&&◌, List, [],
  ◌∷◌, ◌++◌, map, ◌==◌, ltb, if◌then◌else◌, length, get_elem?, take, drop, any,
}
use attendance_tracker.Numerics.{Numerics}
use attendance_tracker.Database.Session.{Result, ok, err, Failure, internal}

-- `use_faiss` may only be set where FAISS can be imported
pub record Matcher (v : Numerics) : Type 0 where
  pub use_faiss : Bool
  pub embeddings : Option (List v.Embedding)
  pub user_ids : List ℕ
  pub faiss_index : Option v.Index

abbrev pub new_matcher : (v : Numerics) → Bool → Matcher v
new_matcher v use_faiss = record {
  use_faiss = use_faiss;
  embeddings = none;
  user_ids = [];
  faiss_index = none;
}

abbrev pub rows : (v : Numerics) → Matcher v → List v.Embedding
rows v m = elim m.embeddings [ none ↦ [] | some xs ↦ xs ]

-- `_build_faiss_index`
abbrev pub build_faiss_index : (v : Numerics) → Matcher v → Matcher v
build_faiss_index v m = record m { faiss_index = some (v.build_index (rows v m)) }

-- `build`
unfoldable pub build : (v : Numerics) → List v.Embedding → List ℕ → Matcher v → Result (Matcher v)
build v embeddings user_ids m =
    let filled : Matcher v = record m { embeddings = some embeddings; user_ids = user_ids } in
    if not (length embeddings == length user_ids)
    then err (internal "Number of embeddings must match number of user IDs")
    else ok (if m.use_faiss then build_faiss_index v filled else filled)

-- `xs[-n:]`, the whole list if `n` is 0
abbrev pub last_of : {A : Type 0} → ℕ → List A → List A
last_of zero xs = xs
last_of (suc n) xs = drop (length xs - suc n) xs

abbrev pub reverse_onto : {A : Type 0} → List A → List A → List A
reverse_onto acc [] = acc
reverse_onto acc (x ∷ xs) = reverse_onto (x ∷ acc) xs

-- the user at a position, or `IndexError`
abbrev pub answer : {S : Type 0} → List ℕ → ℕ → S → Result (Option (ℕ × S))
answer user_ids i score = elim (get_elem? user_ids i) [
  | none ↦ err (internal "list index out of range")
  | some u ↦ ok (some (u, score))
]

-- the loop of `_match_numpy`
pub first_match :
    (v : Numerics) → List ℕ → v.Float → List v.Float → List ℕ → Result (Option (ℕ × v.Float))
first_match v user_ids threshold similarities [] = ok none
first_match v user_ids threshold similarities (i ∷ is) =
    let rest = first_match v user_ids threshold similarities is in
    elim (get_elem? similarities i) [
      | none ↦ err (internal "index out of bounds")
      | some score ↦ if v.at_least score threshold then answer user_ids i score else rest
    ]

unfoldable pub match_numpy :
    (v : Numerics) → v.Embedding → v.Float → ℕ → Matcher v → Result (Option (ℕ × v.Float))
unfolding first_match
match_numpy v query threshold top_k m =
    let similarities = map (λ e. v.dot e query) (rows v m) in
    first_match v m.user_ids threshold similarities
      (reverse_onto [] (last_of (min top_k (length similarities)) (v.argsort similarities)))

-- the loop of `_match_faiss`
pub first_near :
    (v : Numerics) → List ℕ → v.Float → List (v.Float × Option ℕ) → Result (Option (ℕ × v.Float))
first_near v user_ids threshold [] = ok none
first_near v user_ids threshold ((score, at) ∷ found) =
    let rest = first_near v user_ids threshold found in
    elim at [
      | none ↦ rest
      | some i ↦ if v.at_least score threshold then answer user_ids i score else rest
    ]

unfoldable pub match_faiss :
    (v : Numerics) → v.Embedding → v.Float → ℕ → v.Index → Matcher v → Result (Option (ℕ × v.Float))
unfolding first_near
match_faiss v query threshold top_k index m =
    first_near v m.user_ids threshold (v.search index query (min top_k (length m.user_ids)))

-- `match`
unfoldable pub match_user :
    (v : Numerics) → v.Embedding → v.Float → ℕ → Matcher v → Result (Option (ℕ × v.Float))
unfolding match_numpy match_faiss
match_user v query threshold top_k m =
    if length (rows v m) == 0
    then ok none
    else if not m.use_faiss
    then match_numpy v query threshold top_k m
    else elim m.faiss_index [
      | none ↦ match_numpy v query threshold top_k m
      | some index ↦ match_faiss v query threshold top_k index m
    ]

-- `_rebuild_index_if_needed`
abbrev pub rebuild_index_if_needed : (v : Numerics) → Matcher v → Matcher v
rebuild_index_if_needed v m =
    if m.use_faiss && ltb 0 (length (rows v m)) then build_faiss_index v m else m

abbrev pub add_to_index : (v : Numerics) → v.Embedding → Matcher v → Option v.Index
add_to_index v embedding m = elim m.faiss_index [
  | none ↦ none
  | some index ↦ if m.use_faiss then some (v.index_add embedding index) else some index
]

unfoldable pub add_user : (v : Numerics) → ℕ → v.Embedding → Matcher v → Matcher v
add_user v user_id embedding m = record m {
  embeddings = some (rows v m ++ embedding ∷ []);
  user_ids = m.user_ids ++ user_id ∷ [];
  faiss_index = add_to_index v embedding m;
}

-- `user_ids.index(user_id)`, none if it is not there
unfoldable pub index_of : ℕ → List ℕ → Option ℕ
index_of user_id [] = none
index_of user_id (x ∷ xs) =
    let rest = index_of user_id xs in
    if x == user_id then some 0 else (elim rest [ none ↦ none | some i ↦ some (suc i) ])

-- `np.delete(xs, i, axis=0)` and `xs.pop(i)`
abbrev pub delete_at : {A : Type 0} → ℕ → List A → List A
delete_at i [] = []
delete_at zero (x ∷ xs) = xs
delete_at (suc i) (x ∷ xs) = x ∷ delete_at i xs

-- `xs[i] = y`
abbrev pub set_at : {A : Type 0} → ℕ → A → List A → List A
set_at i y [] = []
set_at zero y (x ∷ xs) = y ∷ xs
set_at (suc i) y (x ∷ xs) = x ∷ set_at i y xs

-- the matcher after the call, and whether the user was there
unfoldable pub remove_user : (v : Numerics) → ℕ → Matcher v → Matcher v × Bool
unfolding index_of
remove_user v user_id m = elim (index_of user_id m.user_ids) [
  | none ↦ (m, false)
  | some i ↦ (
    rebuild_index_if_needed v (record m {
      embeddings = some (delete_at i (rows v m));
      user_ids = delete_at i m.user_ids;
    }),
    true,
  )
]

unfoldable pub update_embedding : (v : Numerics) → ℕ → v.Embedding → Matcher v → Matcher v
unfolding index_of add_user
update_embedding v user_id embedding m = elim (index_of user_id m.user_ids) [
  | none ↦ add_user v user_id embedding m
  | some i ↦
      rebuild_index_if_needed v (record m { embeddings = some (set_at i embedding (rows v m)) })
]

unfoldable pub clear : (v : Numerics) → Matcher v → Matcher v
clear v m = record m {
  embeddings = none;
  user_ids = [];
  faiss_index = elim m.faiss_index [ none ↦ none | some index ↦ some (v.index_reset index) ];
}
