-- ===== src/Batch/Counts.antt =====
-- The answer of a batch: its results and its counts.
use attendance_tracker.Prelude.{
  ℕ, ◌+◌, ◌≡◌, refl, sym, ap, subst, Text, Option, none, some, Bool, true, false, not, ◌&&◌, List,
  [], ◌∷◌, ◌++◌, length, count, All, find, if◌then◌else◌, ◌==◌, arith, Bool-cases, inl, inr,
  length-snoc, ==_iff,
}
use attendance_tracker.Database.Rows.{User, Attendance}
use attendance_tracker.Database.Session.{Result, ok, err}
use attendance_tracker.Numerics.{Numerics}
use attendance_tracker.Images
use attendance_tracker.Liveness
use attendance_tracker.Recognition
use attendance_tracker.Batch
use attendance_tracker.Batch.Returns.{
  Returns, Returns-done, Returns-of_result, Returns-bind, Returns-if,
}

abbrev pub matched_count : {v : Numerics} → List (Recognition.RecognizeResponse v) → ℕ
matched_count rs = count (λ r. r.matched) rs

count-snoc :
    {A : Type 0} (p : A → Bool) (xs : List A) (x : A)
    → count p (xs ++ x ∷ []) ≡ count p xs + (if p x then 1 else 0)
count-snoc p [] x = omega arith
count-snoc p (y ∷ ys) x = omega (arith, count-snoc p ys x)

pub count-not :
    {A : Type 0} (p : A → Bool) (xs : List A) → count p xs + count (λ x. not (p x)) xs ≡ length xs
count-not p [] = refl
count-not p (x ∷ xs) = ground (arith, count-not p xs)

All-snoc :
    {A : Type 0} (P : A → Type 0) (xs : List A) (x : A) → All P xs → P x → All P (xs ++ x ∷ [])
All-snoc P [] x h p = (p, tt)
All-snoc P (y ∷ ys) x (q, h) p = (q, All-snoc P ys x h p)

module _ (v : Numerics) (users : List User) (attendance : List Attendance) where
  module _ (c : Recognition.RecognitionConfig v) (now : ℕ) (b : Batch.Batch v) where
    -- a match is of an active user of the organization
    abbrev pub IsOwn : User → Type 0
    IsOwn user =
        (user.organization_id ≡ b.organization_id)
        × ((id : ℕ) × (find (λ u. u.id == id && u.is_active) users ≡ some user))

    abbrev pub IsOwnResult : Recognition.RecognizeResponse v → Type 0
    IsOwnResult r =
        r.matched ≡ true
        → (user : User) × (score : v.Float) × (live : Liveness.Verdict v) × (r
            ≡ Recognition.match_response v user score live)
          × IsOwn user

    -- a tally of `n` images
    pub record Tallied (n : ℕ) (t : Batch.Tally v) : Type 0 where
      pub one_each : length t.0 ≡ n
      pub counted : t.1 ≡ matched_count t.0
      pub own : All IsOwnResult t.0

    missed-Tallied :
        (n : ℕ) (t : Batch.Tally v) (r : Recognition.RecognizeResponse v)
        → r.matched ≡ false
        → Tallied n t
        → Tallied (n + 1) (Batch.missed v c now b t r)
    missed-Tallied n (rs, k) r e h = record {
      one_each = omega (arith, length-snoc rs r, h.one_each);
      counted = ground (
        arith,
        e,
        count-snoc (λ (x : Recognition.RecognizeResponse v). x.matched) rs r,
        h.counted,
      );
      own = All-snoc IsOwnResult rs r h.own (λ m. absurd (ground (arith, m, e)));
    }

    abbrev Owned : Option (User × v.Float) → Type 0
    Owned none = Unit
    Owned (some (user, score)) = IsOwn user

    tally_match-Tallied :
        (n : ℕ) (t : Batch.Tally v) (live : Liveness.Verdict v) (found : Option (User × v.Float))
        → Owned found
        → Tallied n t
        → Tallied (n + 1) (Batch.tally_match v c now b t live found)
    tally_match-Tallied n t live none o h = missed-Tallied n t _ refl h
    tally_match-Tallied n (rs, k) live (some (user, score)) o h =
        let r = Recognition.match_response v user score live in
        record {
          one_each = omega (arith, length-snoc rs r, h.one_each);
          counted = omega (
            arith,
            count-snoc (λ (x : Recognition.RecognizeResponse v). x.matched) rs r,
            h.counted,
          );
          own = All-snoc IsOwnResult rs r h.own (λ m. (user, score, live, refl, o));
        }

    own_user-Owned :
        (id : ℕ) (o : Option User) (score : v.Float)
        → find (λ u. u.id == id && u.is_active) users ≡ o
        → Owned (Recognition.own_user v c b.organization_id o score)
    own_user-Owned id none score e = tt
    own_user-Owned id (some user) score e =
        elim (Bool-cases (user.organization_id == b.organization_id)) [
          | inl f ↦ rw f ((==_iff user.organization_id b.organization_id).0 f, (id, e))
          | inr f ↦ rw f tt
        ]

    matched_user-Returns :
        (result : Option (ℕ × v.Float))
        → Returns v users attendance Owned (Recognition.matched_user v c b.organization_id result)
    matched_user-Returns none w k = Returns-done v users attendance none tt w k
    matched_user-Returns (some (id, score)) w k = record {
      answer =
          Recognition.own_user v c b.organization_id
            (Recognition.active_user_by_id v c id w.session.working) score;
      world = w;
      returns = refl;
      holds =
          own_user-Owned id (Recognition.active_user_by_id v c id w.session.working) score
            (ap (find (λ (u : User). u.id == id && u.is_active)) (sym k.users_kept));
      keeps = k;
    }

    spoof-Returns :
        (reason : Text)
        → Returns v users attendance
            (λ _. Unit)
            (Recognition.record_spoof_attempt v now b.organization_id reason)
    unfolding Recognition.record_spoof_attempt
    spoof-Returns reason w k = record {
      answer = tt;
      world = (Recognition.record_spoof_attempt v now b.organization_id reason w).1;
      returns = refl;
      holds = tt;
      keeps = record { users_kept = k.users_kept; attendance_kept = k.attendance_kept };
    }

    liveness-Returns :
        (frames : List v.Image) (t : v.Float)
        → Returns v users attendance (λ _. Unit) (Recognition.run_liveness v now frames t)
    unfolding Recognition.run_liveness
    liveness-Returns frames t w k = record {
      answer = (Liveness.check v now frames (some t) (Liveness.reset v w.detector)).0;
      world = (Recognition.run_liveness v now frames t w).1;
      returns = refl;
      holds = tt;
      keeps = record { users_kept = k.users_kept; attendance_kept = k.attendance_kept };
    }

    module _
        (hits : (e : v.Embedding)
          → (r : Option (ℕ × v.Float)) × (Recognition.match_in v c e b.threshold b.matcher ≡ ok r))
        (liveness : (t : v.Float) × (b.settings.liveness ≡ ok t)) where
      abbrev Tallies : ℕ → Recognition.Task v (Batch.Tally v) → Type 0
      Tallies n m = Returns v users attendance (Tallied n) m

      tally_live-Tallies :
          (n : ℕ) (t : Batch.Tally v) (face : v.Image) (live : Liveness.Verdict v)
          → Tallied n t
          → Tallies (n + 1) (Batch.tally_live v c now b t face live)
      tally_live-Tallies n t face live h =
          Returns-bind v users attendance {P = λ _. Unit}
            (Recognition.of_result (Recognition.match_in v c (v.embed face) b.threshold b.matcher))
            (Batch.tally_result v c now b t live)
            (Returns-of_result v users attendance _ (hits (v.embed face)).0 (hits (v.embed face)).1
              tt)
            (λ result _.
              Returns-bind v users attendance {P = Owned}
                (Recognition.matched_user v c b.organization_id result)
                (λ found. Recognition.done (Batch.tally_match v c now b t live found))
                (matched_user-Returns result)
                (λ found o.
                  Returns-done v users attendance _ (tally_match-Tallied n t live found o h)))

      tally_spoof-Tallies :
          (n : ℕ) (t : Batch.Tally v) (live : Liveness.Verdict v)
          → Tallied n t
          → Tallies (n + 1) (Batch.tally_spoof v c now b t live)
      tally_spoof-Tallies n t live h =
          Returns-bind v users attendance {P = λ _. Unit}
            (Recognition.record_spoof_attempt v now b.organization_id live.detail)
            (λ _. Recognition.done (
              Batch.missed v c now b t (
                Recognition.no_match_response v false live.score
                  (Recognition.or_failed v live.detail))))
            (spoof-Returns live.detail)
            (λ _ _. Returns-done v users attendance _ (missed-Tallied n t _ refl h))

      tally_face-Tallies :
          (n : ℕ) (t : Batch.Tally v) (face : Option v.Image)
          → Tallied n t
          → Tallies (n + 1) (Batch.tally_face v c now b t face)
      tally_face-Tallies n t none h =
          Returns-done v users attendance _ (missed-Tallied n t _ refl h)
      tally_face-Tallies n t (some face) h =
          Returns-if v users attendance b.checks
            (Recognition.◌>>=◌ (Recognition.of_result b.settings.liveness)
              (Batch.tally_threshold v c now b t face))
            (Batch.tally_live v c now b t face (Recognition.unchecked v))
            (Returns-bind v users attendance {P = λ _. Unit}
              (Recognition.of_result b.settings.liveness) (Batch.tally_threshold v c now b t face)
              (Returns-of_result v users attendance _ liveness.0 liveness.1 tt)
              (λ threshold _.
                Returns-bind v users attendance {P = λ _. Unit}
                  (Recognition.run_liveness v now (face ∷ []) threshold)
                  (Batch.tally_verdict v c now b t face) (liveness-Returns (face ∷ []) threshold)
                  (λ live _.
                    Returns-if v users attendance live.is_live
                      (Batch.tally_live v c now b t face live) (Batch.tally_spoof v c now b t live)
                      (tally_live-Tallies n t face live h) (tally_spoof-Tallies n t live h))))
            (tally_live-Tallies n t face (Recognition.unchecked v) h)

      tally_image-Tallies :
          (n : ℕ) (t : Batch.Tally v) (image : Result v.Image)
          → Tallied n t
          → Tallies (n + 1) (Batch.tally_image v c now b t image)
      tally_image-Tallies n t (err e) h =
          Returns-done v users attendance _ (missed-Tallied n t _ refl h)
      tally_image-Tallies n t (ok image) h = tally_face-Tallies n t (v.detect_face image) h

      pub recognize_all-Tallies :
          (n : ℕ) (texts : List Text) (t : Batch.Tally v)
          → Tallied n t
          → Tallies (n + length texts) (Batch.recognize_all v c now b texts t)
      unfolding Batch.recognize_all
      recognize_all-Tallies n [] t h =
          Returns-done v users attendance t (subst (λ k. Tallied k t) (omega arith) h)
      recognize_all-Tallies n (text ∷ texts) t h =
          Returns-bind v users attendance {P = Tallied (n + 1)}
            (Batch.tally_image v c now b t (Images.decode_base64_image v c.max_upload_size text))
            (Batch.recognize_all v c now b texts)
            (tally_image-Tallies n t (Images.decode_base64_image v c.max_upload_size text) h)
            (λ t' h'.
              subst
                (λ k.
                  Returns v users attendance (Tallied k) (Batch.recognize_all v c now b texts t'))
                (omega arith) (recognize_all-Tallies (n + 1) texts t' h'))
