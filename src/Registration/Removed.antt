-- ===== src/Registration/Removed.antt =====
-- A removal, and the conditions under which a registration writes.
use attendance_tracker.Prelude.{
  ℕ, ◌/◌, ◌≡◌, ◌≢◌, ◌≤◌, ⊤, refl, sym, ap, ◌∙◌, subst, none, some, true, false, List, [], ◌∷◌, ◌⊎◌,
  inl, inr, Keyed, length, ltb, find, delete_where, ◌==◌, arith, Option-cases, Bool-cases,
}
use attendance_tracker.Database.Rows.{Db, User, Embedding}
use attendance_tracker.Database.Session.{Result, ok}
use attendance_tracker.Numerics.{Numerics}
use attendance_tracker.Marking.{member_by_id}
use attendance_tracker.Registry
use attendance_tracker.Registry.Isolated.{SameButFor, IsSound}
use attendance_tracker.Registry.Kept
use attendance_tracker.Registry.Updates
use attendance_tracker.Matcher
use attendance_tracker.Matcher.Sound
use attendance_tracker.Recognition
use attendance_tracker.Recognition.Stored
use attendance_tracker.Registration
use attendance_tracker.Registration.Registered.{Begins}
use attendance_tracker.Registration.Registered
use attendance_tracker.Registration.Template

find-delete :
    (u : ℕ) (es : List Embedding)
    → find (λ (e : Embedding). e.user_id == u) (delete_where (λ e. e.user_id == u) es) ≡ none
find-delete u [] = refl
find-delete u (x ∷ es) = elim (Bool-cases (x.user_id == u)) [
  | inl e ↦ ground (arith, e, find-delete u es)
  | inr e ↦ ground (arith, e, find-delete u es)
]

module _ (v : Numerics) (c : Recognition.RecognitionConfig v) (w : Recognition.World v) where
  pub record Gone (org : ℕ) (user : User) (out : Result ⊤ × Recognition.World v) : Type 0 where
    pub returns : out.0 ≡ ok tt
    pub no_row : Registration.embedding_by_user user.id out.1.session.saved ≡ none
    pub not_held : Updates.held v c.index org user.id out.1.registry ≡ none
    pub not_matched :
        (m : Matcher.Matcher v) (query : v.Embedding) (threshold score : v.Float)
        → Registry.get org out.1.registry ≡ some m
        → m.use_faiss ≡ false
        → Matcher.match_user v query threshold 1 m ≢ ok (some (user.id, score))
    pub sound : IsSound v c.index out.1.session.saved out.1.registry

  unmatched :
      (org u : ℕ) (db : Db) (reg : Registry.Registry v) (m : Matcher.Matcher v)
      (query : v.Embedding) (threshold score : v.Float)
      → IsSound v c.index db reg
      → Updates.held v c.index org u reg ≡ none
      → Registry.get org reg ≡ some m
      → m.use_faiss ≡ false
      → Matcher.match_user v query threshold 1 m ≢ ok (some (u, score))
  unmatched org u db reg m query threshold score sound gone known off h =
      let (i, x, there, vector, same, enough) =
        Sound.match_numpy_sound v query threshold 1 m u score
          (Stored.numpy_match v c m query threshold u score off h) in
      let present =
        Stored.vector_at_position u i x m.user_ids (Matcher.rows v m)
          ((sound org m known).fine.once u) there vector in
      absurd (ground (arith, gone, known, present))

  -- A removal by an organization's admin of the template of a user of the organization answers. The
  -- user has no row of embeddings then and no vector in the matrix of the organization's matcher,
  -- which, where it is searched without FAISS, matches no face with the user any more; and the
  -- registry still agrees with the tables. (The FAISS index may keep the vector of the last user.)
  pub deregister_user_face_lem :
      (user_id : ℕ) (current_user user : User)
      → Begins v c w
      → Keyed (λ (u : User). u.id) w.session.saved.users
      → member_by_id user_id current_user.organization_id w.session.saved ≡ some user
      → Gone current_user.organization_id user
          (Registration.deregister_user_face v c current_user user_id w)
  unfolding Registration.deregister_user_face
  deregister_user_face_lem user_id current_user user begins keyed known =
      let org = current_user.organization_id in
      let db' = Registration.delete_embedding user.id w.session.saved in
      let out = Registration.deregister_user_face v c current_user user_id w in
      let saved : out.1.session.saved ≡ db' = ground (arith, begins.fresh, known) in
      let index : out.1.registry ≡ Registry.remove_from v c.index org user.id w.registry =
        ground (arith, begins.fresh, known) in
      let same : SameButFor v c.index org user.id w.session.saved db' =
        Registered.SameButFor-vectors v c org user_id user w.session.saved db' keyed known refl
          (λ i e. sym (
            Template.first_vector-delete v c.index i user.id w.session.saved.embeddings
            ∙ ground (arith, e))) in
      let not_held : Updates.held v c.index org user.id out.1.registry ≡ none =
        ap (Updates.held v c.index org user.id) index
        ∙ Updates.remove_from_lem v c.index org user.id w.session.saved w.registry begins.sound org
            user.id
        ∙ ground arith in
      let sound : IsSound v c.index out.1.session.saved out.1.registry =
        subst (λ t. IsSound v c.index t out.1.registry) (sym saved)
          (subst (IsSound v c.index db') (sym index) (
            Kept.remove-IsSound v c.index org user.id w.session.saved db' w.registry same
              begins.sound)) in
      record {
        returns = ground (arith, begins.fresh, known);
        no_row =
            ap (Registration.embedding_by_user user.id) saved
            ∙ find-delete user.id w.session.saved.embeddings;
        not_held = not_held;
        not_matched = λ m query threshold score e off.
            unmatched org user.id out.1.session.saved out.1.registry m query threshold score sound
              not_held e off;
        sound = sound;
      }

  -- what a registration that writes has checked
  pub record Checked (face_image_size user_id : ℕ)
      (request : Registration.RegistrationUploadRequest v) (current_user user : User) : Type 0 where
    pub known : member_by_id user_id current_user.organization_id w.session.working ≡ some user
    pub active : user.is_active ≡ true
    pub enough :
        3
        ≤ length
            (Registration.accept_images v c (face_image_size / 2) request.images_base64).embeddings
    pub good :
        v.less
          (Registration.average v
            (Registration.accept_images v c
              (face_image_size / 2)
              request.images_base64).quality_scores)
          request.quality_threshold
        ≡ false

  -- A registration leaves the tables and the registry as they are, unless the user is an active one
  -- of the admin's organization, three images or more are accepted, and their average quality is
  -- not below the request's.
  pub register_user_face_guarded :
      (face_image_size user_id : ℕ) (request : Registration.RegistrationUploadRequest v)
      (current_user : User)
      → ((Registration.register_user_face v c face_image_size request current_user user_id w).1 ≡ w)
        ⊎ ((user : User) × Checked face_image_size user_id request current_user user)
  unfolding Registration.register_user_face
  register_user_face_guarded size user_id request current_user =
      let samples = Registration.accept_images v c (size / 2) request.images_base64 in
      elim (Option-cases (member_by_id user_id current_user.organization_id w.session.working)) [
        | inl e ↦ inl (ground (arith, e))
        | inr (user, e) ↦ elim (Bool-cases user.is_active) [
          | inr f ↦ inl (ground (arith, e, f))
          | inl f ↦ elim (Bool-cases (ltb (length samples.embeddings) 3)) [
            | inl g ↦ inl (ground (arith, e, f, g))
            | inr g ↦
                elim (Bool-cases (
                  v.less (Registration.average v samples.quality_scores)
                    request.quality_threshold)) [
                      | inl h ↦ inl (ground (arith, e, f, g, h))
                      | inr h ↦ inr (
                        user,
                        record { known = e; active = f; enough = ground (arith, g); good = h },
                      )
                    ]
          ]
        ]
      ]
