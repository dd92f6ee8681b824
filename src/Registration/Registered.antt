-- ===== src/Registration/Registered.antt =====
-- A registration and a removal, through the table, the registry and the answer.
use attendance_tracker.Prelude.{
  ℕ, ◌/◌, ◌≡◌, ◌≤◌, refl, sym, ap, ◌∙◌, subst, Option, none, some, true, false, ◌&&◌, List, inl,
  inr, ⊤, length, find, ◌==◌, arith, Option-cases, Bool-cases, ==_iff, ◌≢◌, Keyed, find_key,
  find_and, find_holds,
}
use attendance_tracker.Database.Rows.{Db, User, Embedding}
use attendance_tracker.Database.Session.{Result, ok}
use attendance_tracker.Numerics.{Numerics}
use attendance_tracker.Marking.{member_by_id}
use attendance_tracker.Registry
use attendance_tracker.Registry.Loaded
use attendance_tracker.Registry.Isolated.{SameButFor, UniqueRows, IsSound}
use attendance_tracker.Registry.Kept
use attendance_tracker.Registry.Updates
use attendance_tracker.Recognition
use attendance_tracker.Registration
use attendance_tracker.Registration.Template

module _ (v : Numerics) (c : Recognition.RecognitionConfig v) where
  -- a request begins with nothing written, and with a registry that agrees with the tables
  pub record Begins (w : Recognition.World v) : Type 0 where
    pub fresh : w.session.working ≡ w.session.saved
    pub unique : UniqueRows w.session.saved
    pub sound : IsSound v c.index w.session.saved w.registry

  abbrev pub stored : User → Registration.Samples v → Db → Db
  stored user samples db =
      Registration.write_embedding user.id (v.to_bytes (v.mean_embedding samples.embeddings))
        (length samples.embeddings) (Registration.embedding_by_user user.id db) db

  pub owner_user :
      (org : ℕ) (user_id : ℕ) (user : User) (db : Db)
      → member_by_id user_id org db ≡ some user
      → user.is_active ≡ true
      → (user.id ≡ user_id) × (Registry.owner v c.index org user_id db ≡ some user)
  owner_user org user_id user db h active = (
    (==_iff user.id user_id).0 (
        ground (
          arith,
          find_holds (λ (u : User). u.id == user_id && u.organization_id == org) db.users user h,
        )),
    find_and (λ (u : User). u.id == user_id && u.organization_id == org) (λ (u : User). u.is_active)
        db.users user h active,
  )

  -- no other organization owns the user
  owner_other :
      (org o user_id : ℕ) (user : User) (db : Db)
      → Keyed (λ (u : User). u.id) db.users
      → member_by_id user_id org db ≡ some user
      → (o == org) ≡ false
      → (u : User) → Registry.owner v c.index o user.id db ≢ some u
  owner_other org o user_id user db keyed h d u g =
      let p = λ (u : User). u.id == user_id && u.organization_id == org in
      let q = λ (u : User). (u.id == user.id && u.organization_id == o) && u.is_active in
      let mine = find_key (λ (u : User). u.id) p db.users user keyed h in
      let theirs = find_key (λ (u : User). u.id) q db.users u keyed g in
      let at_p = find_holds p db.users user h in
      let at_q = find_holds q db.users u g in
      let id_same : u.id ≡ user.id = (==_iff u.id user.id).0 (ground (arith, at_q)) in
      let same : some u ≡ some user =
        sym theirs ∙ ap (λ i. find (λ (y : User). y.id == i) db.users) id_same ∙ mine in
      let org_same : u.organization_id ≡ user.organization_id = ground (arith, same) in
      ground (
        arith,
        d,
        (==_iff u.organization_id o).0 (ground (arith, at_q)),
        (==_iff user.organization_id org).0 (ground (arith, at_p)),
        org_same,
      )

  users_stored :
      (u n : ℕ) (vector : List ℕ) (row : Option Embedding) (db : Db)
      → (Registration.write_embedding u vector n row db).users ≡ db.users
  users_stored u n vector none db = refl
  users_stored u n vector (some e) db = refl

  owner_users :
      (o w : ℕ) (db db' : Db)
      → db'.users ≡ db.users
      → Registry.owner v c.index o w db' ≡ Registry.owner v c.index o w db
  owner_users o w db db' e =
      ap (find (λ (u : User). (u.id == w && u.organization_id == o) && u.is_active)) e

  -- a change of the templates of one user, from that of the vectors
  pub SameButFor-vectors :
      (org user_id : ℕ) (user : User) (db db' : Db)
      → Keyed (λ (u : User). u.id) db.users
      → member_by_id user_id org db ≡ some user
      → db'.users ≡ db.users
      → ((w : ℕ)
          → (w == user.id) ≡ false
          → Loaded.first_vector v c.index w db.embeddings
            ≡ Loaded.first_vector v c.index w db'.embeddings)
      → SameButFor v c.index org user.id db db'
  SameButFor-vectors org user_id user db db' keyed h users vectors o w d =
      let owners = owner_users o w db db' users in
      elim (Bool-cases (w == user.id)) [
        | inr e ↦
            ap (Loaded.if_owned v c.index (Registry.owner v c.index o w db)) (vectors w e)
            ∙ ap (λ u. Loaded.if_owned v c.index u (Loaded.first_vector v c.index w db'.embeddings))
                (sym owners)
        | inl e ↦ elim (Option-cases (Registry.owner v c.index o w db)) [
          | inl f ↦ ground (arith, f, owners)
          | inr (u, f) ↦ absurd (
              owner_other org o user_id user db keyed h (ground (arith, d, e)) u
                (subst (λ i. Registry.owner v c.index o i db ≡ some u) ((==_iff w user.id).0 e) f))
        ]
      ]

  -- the tables of a session, but for the audit
  pub record Stored (w : Recognition.World v) (org : ℕ) (user : User)
      (samples : Registration.Samples v)
      (out : Result (Registration.RegistrationResponse v) × Recognition.World v) : Type 0 where
    pub returns : out.0 ≡ ok (Registration.response v true user.id samples)
    pub row :
        Registration.embedding_by_user user.id out.1.session.saved
        ≡ some (record {
          user_id = user.id;
          vector = v.to_bytes (v.mean_embedding samples.embeddings);
          num_samples = length samples.embeddings;
          version =
              Registration.next_version (Registration.embedding_by_user user.id w.session.saved);
        })
    pub held :
        Updates.held v c.index org user.id out.1.registry
        ≡ some (v.mean_embedding samples.embeddings)
    pub sound : IsSound v c.index out.1.session.saved out.1.registry

  module _ (w : Recognition.World v) (face_image_size user_id : ℕ)
      (request : Registration.RegistrationUploadRequest v) (current_user user : User)
      (begins : Begins w) (keyed : Keyed (λ (u : User). u.id) w.session.saved.users)
      (encodes : Template.Encodes v c.index.embedding_dim)
      (known : member_by_id user_id current_user.organization_id w.session.saved ≡ some user)
      (active : user.is_active ≡ true) where
    abbrev org : ℕ
    org = current_user.organization_id

    abbrev samples : Registration.Samples v
    samples = Registration.accept_images v c (face_image_size / 2) request.images_base64

    abbrev db' : Db
    db' = stored user samples w.session.saved

    stored_template :
        SameButFor v c.index org user.id w.session.saved db'
        × (Loaded.template v c.index org user.id db' ≡ some (v.mean_embedding samples.embeddings))
    stored_template =
        let vectors = λ (i : ℕ).
          Template.first_vector-write v c.index user.id (v.mean_embedding samples.embeddings)
            w.session.saved (length samples.embeddings)
            (v.to_bytes (v.mean_embedding samples.embeddings)) i
            (Template.decode-to_bytes v c.index encodes (v.mean_embedding samples.embeddings)) in
        let users =
          users_stored user.id (length samples.embeddings)
            (v.to_bytes (v.mean_embedding samples.embeddings))
            (Registration.embedding_by_user user.id w.session.saved) w.session.saved in
        (
          SameButFor-vectors org user_id user w.session.saved db' keyed known users
              (λ i e. sym (vectors i ∙ ground (arith, e))),
          ground (
            arith,
            vectors user.id,
            owner_users org user.id w.session.saved db' users,
            (owner_user org user_id user w.session.saved known active).1,
            ap (λ i. Registry.owner v c.index org i w.session.saved)
                (owner_user org user_id user w.session.saved known active).0,
          ),
        )

    upserted : Result ⊤ × Registry.Registry v
    upserted =
        Registry.upsert_user v c.index org user.id (v.mean_embedding samples.embeddings) db'
          w.registry

    -- the index after the registration
    upserted_lem :
        (upserted.0 ≡ ok tt)
        × (Updates.held v c.index org user.id upserted.1
            ≡ some (v.mean_embedding samples.embeddings))
        × IsSound v c.index db' upserted.1
    unfolding upserted
    upserted_lem =
        let x = v.mean_embedding samples.embeddings in
        let (returns, helds) =
          Updates.upsert_user_lem v c.index org user.id x db' w.registry
            (λ m e. (begins.sound org m e).fine.aligned) in
        let (same, own) = stored_template in
        (
          returns,
          helds org user.id ∙ ground arith,
          Kept.upsert-IsSound v c.index org user.id x w.session.saved db' w.registry
              (Template.write-UniqueRows user.id (length samples.embeddings) (v.to_bytes x)
                w.session.saved begins.unique)
              same own begins.sound,
        )

    -- A registration by an organization's admin of an active user of the organization, with three
    -- accepted images or more whose average quality is not below the request's, answers success. It
    -- stores the mean vector with the next version, the organization's matcher has that vector for
    -- the user, and the registry still agrees with the tables.
    pub register_user_face_accepts :
        3 ≤ length samples.embeddings
        → v.less (Registration.average v samples.quality_scores) request.quality_threshold ≡ false
        → Stored w org user samples
            (Registration.register_user_face v c face_image_size request current_user user_id w)
    unfolding Registration.register_user_face upserted
    register_user_face_accepts enough good =
        let (returns, held, sound) = upserted_lem in
        let out =
          Registration.register_user_face v c face_image_size request current_user user_id w in
        let saved : out.1.session.saved ≡ db' =
          ground (arith, begins.fresh, known, active, enough, good, returns) in
        let index : out.1.registry ≡ upserted.1 =
          ground (arith, begins.fresh, known, active, enough, good, returns) in
        record {
          returns = ground (arith, begins.fresh, known, active, enough, good, returns);
          row =
              ap (Registration.embedding_by_user user.id) saved
              ∙ Template.row-write user.id (length samples.embeddings)
                  (v.to_bytes (v.mean_embedding samples.embeddings)) w.session.saved;
          held = ap (Updates.held v c.index org user.id) index ∙ held;
          sound =
              subst (λ t. IsSound v c.index t out.1.registry) (sym saved)
                (subst (IsSound v c.index db') (sym index) sound);
        }
