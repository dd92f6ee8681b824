-- ===== src/Registration.antt =====
-- src/api/routes/recognition.py: the routes that register, remove and show a user's face template.
-- The columns `quality_score`, `model_version` and the times of a row, and the quality in the audit
-- details, are left out, and log lines too.
pub mod Scores
pub mod Registered
pub mod Removed
pub mod Template
use attendance_tracker.Prelude.{
  ℕ, ◌+◌, ◌/◌, Text, Option, none, some, Bool, true, false, not, ◌&&◌, ◌||◌, List, [], ◌∷◌, ◌++◌, ⊤,
  length, find, ltb, update_where, delete_where, if◌then◌else◌, ◌==◌,
}
use attendance_tracker.Database.Rows.{Db, User, Embedding, num, is_superadmin}
use attendance_tracker.Database.Session.{
  Failure, http, Result, ok, err, modify, commit, or_raise, raise_if, raise, pure,
}
use attendance_tracker.Numerics.{Numerics}
use attendance_tracker.Audit.{entry, record_audit}
use attendance_tracker.Registry.{upsert_user, remove_from}
use attendance_tracker.Images.{decode_base64_image, quality_checker, check_quality, Quality}
use attendance_tracker.Marking.{member_by_id}
use attendance_tracker.Recognition.{
  RecognitionConfig, Task, World, done, of_result, reads, in_session, frame_of, ◌>>=◌, ◌>>◌,
}

pub record RegistrationUploadRequest (v : Numerics) : Type 0 where
  pub images_base64 : List Text
  pub quality_threshold : v.Float

-- the answer without its message
pub record RegistrationResponse (v : Numerics) : Type 0 where
  pub success : Bool
  pub user_id : ℕ
  pub num_samples : ℕ
  pub quality_score : v.Float

pub record RegistrationStatusResponse : Type 0 where
  pub is_registered : Bool
  pub num_samples : ℕ
  pub version : ℕ

abbrev pub user_not_found : Failure
user_not_found = http 404 "User not found"

abbrev pub too_few_images : Failure
too_few_images = http 400 "At least 3 valid face images required"

abbrev pub embedding_by_user : ℕ → Db → Option Embedding
embedding_by_user user_id db = find (λ e. e.user_id == user_id) db.embeddings

-- the row of a user, where it is there
abbrev pub next_version : Option Embedding → ℕ
next_version none = 1
next_version (some e) = e.version + 1

abbrev pub write_embedding : ℕ → List ℕ → ℕ → Option Embedding → Db → Db
write_embedding user_id vector num_samples none db = record db {
  embeddings =
      db.embeddings
      ++ record { user_id = user_id; vector = vector; num_samples = num_samples; version = 1 } ∷ [];
}
write_embedding user_id vector num_samples (some old) db = record db {
  embeddings =
      update_where (λ e. e.user_id == user_id)
        (λ e. record e { vector = vector; num_samples = num_samples; version = e.version + 1 })
        db.embeddings;
}

abbrev pub delete_embedding : ℕ → Db → Db
delete_embedding user_id db = record db {
  embeddings = delete_where (λ e. e.user_id == user_id) db.embeddings;
}

-- the loop of `register_user_face`: the embeddings and the quality scores of the accepted images
pub record Samples (v : Numerics) : Type 0 where
  pub embeddings : List v.Embedding
  pub quality_scores : List v.Float

module _ (v : Numerics) (c : RecognitionConfig v) (min_face_size : ℕ) where
  abbrev pub add_sample : v.Image → Quality v → Samples v → Samples v
  add_sample face quality rest =
      if quality.valid
      then record {
        embeddings = v.embed face ∷ rest.embeddings;
        quality_scores = quality.overall_score ∷ rest.quality_scores;
      }
      else rest

  abbrev pub add_face : Option v.Image → Samples v → Samples v
  add_face none rest = rest
  add_face (some face) rest =
      add_sample face (check_quality v (quality_checker v min_face_size) face) rest

  unfoldable pub accept_images : List Text → Samples v
  unfolding decode_base64_image check_quality
  accept_images [] = record { embeddings = []; quality_scores = [] }
  accept_images (text ∷ texts) =
      let rest = accept_images texts in
      add_face (frame_of v c (decode_base64_image v c.max_upload_size text)) rest

module _ (v : Numerics) where
  -- `sum(xs)`, from the sum so far
  abbrev pub sum_onto : v.Float → List v.Float → v.Float
  sum_onto total [] = total
  sum_onto total (x ∷ xs) = sum_onto (v.plus total x) xs

  -- `avg_quality`
  abbrev pub average : List v.Float → v.Float
  average xs = v.over (sum_onto (v.decimal 0 0) xs) (v.decimal (length xs) 0)

  abbrev pub response : Bool → ℕ → Samples v → RegistrationResponse v
  response success user_id samples = record {
    success = success;
    user_id = user_id;
    num_samples = length samples.embeddings;
    quality_score = v.round 4 (average samples.quality_scores);
  }

module _ (v : Numerics) (c : RecognitionConfig v) where
  abbrev pub registry_upsert : ℕ → ℕ → v.Embedding → Task v ⊤
  registry_upsert organization_id user_id x w =
      let (r, reg) = upsert_user v c.index organization_id user_id x w.session.saved w.registry in
      (r, record { session = w.session; registry = reg; detector = w.detector })

  abbrev pub registry_remove : ℕ → ℕ → Task v ⊤
  registry_remove organization_id user_id w = (
    ok tt,
    record {
      session = w.session;
      registry = remove_from v c.index organization_id user_id w.registry;
      detector = w.detector;
    },
  )

  -- the row, the index and the audit entry
  abbrev pub store_template : User → User → Samples v → Option Embedding → Task v ⊤
  store_template current_user user samples existing =
      in_session (
        modify (
          write_embedding user.id (v.to_bytes (v.mean_embedding samples.embeddings))
            (length samples.embeddings) existing))
      >> in_session commit
      >> registry_upsert current_user.organization_id user.id (v.mean_embedding samples.embeddings)
      >> in_session (
          record_audit (
            entry "face.registered" (some current_user.organization_id) (some current_user.id)
              (some user.id)
              (("samples", num (length samples.embeddings))
                ∷ ("version", num (next_version existing))
                ∷ [])
              none))

  abbrev pub store_and_answer :
      User → User → Samples v → Option Embedding → Task v (RegistrationResponse v)
  store_and_answer current_user user samples existing =
      store_template current_user user samples existing >> done (response v true user.id samples)

  -- `register_user_face` after its loop
  abbrev pub judge_samples : User → v.Float → Samples v → User → Task v (RegistrationResponse v)
  judge_samples current_user quality_threshold samples user =
      if ltb (length samples.embeddings) 3
      then of_result (err too_few_images)
      else if v.less (average v samples.quality_scores) quality_threshold
      then done (response v false user.id samples)
      else (reads (embedding_by_user user.id) >>= store_and_answer current_user user samples)

  -- the user, where it is an active one of the organization
  abbrev pub active_or_raise : Option User → Result User
  active_or_raise none = err user_not_found
  active_or_raise (some user) = if user.is_active then ok user else err user_not_found

  -- `register_user_face`
  unfoldable pub register_user_face :
      ℕ → RegistrationUploadRequest v → User → ℕ → Task v (RegistrationResponse v)
  unfolding accept_images upsert_user
  register_user_face face_image_size request current_user user_id =
      (reads (member_by_id user_id current_user.organization_id) >>= λ found.
      of_result (active_or_raise found))
      >>= judge_samples current_user request.quality_threshold
          (accept_images v c (face_image_size / 2) request.images_base64)

  abbrev pub or_not_found : Option User → Result User
  or_not_found none = err user_not_found
  or_not_found (some user) = ok user

  abbrev pub delete_template : User → User → Task v ⊤
  delete_template current_user user =
      in_session (modify (delete_embedding user.id))
      >> in_session commit
      >> registry_remove current_user.organization_id user.id

  -- `deregister_user_face`
  unfoldable pub deregister_user_face : User → ℕ → Task v ⊤
  unfolding remove_from
  deregister_user_face current_user user_id =
      (reads (member_by_id user_id current_user.organization_id) >>= λ found.
      of_result (or_not_found found))
      >>= delete_template current_user

  abbrev pub status_of : Option Embedding → RegistrationStatusResponse
  status_of none = record { is_registered = false; num_samples = 0; version = 0 }
  status_of (some e) = record {
    is_registered = true;
    num_samples = e.num_samples;
    version = e.version;
  }

  abbrev pub seen_by : User → ℕ → Db → Option User
  seen_by current_user user_id db =
      find
        (λ u.
          u.id == user_id
          && (is_superadmin current_user || u.organization_id == current_user.organization_id))
        db.users

  -- `get_registration_status`
  unfoldable pub get_registration_status : User → ℕ → Task v RegistrationStatusResponse
  get_registration_status current_user user_id =
      (reads (seen_by current_user user_id) >>= λ found. of_result (or_not_found found)) >>= λ user.
      reads (λ db. status_of (embedding_by_user user.id db))
