-- ===== src/Registration/Scores.antt =====
-- The quality that a registration asks for.
use attendance_tracker.Prelude.{
  ℕ, suc, ◌≡◌, ◌<◌, refl, sym, ap, ◌∙◌, subst, Text, Option, none, some, Bool, true, false, List,
  [], ◌∷◌, inl, inr, length, arith, Bool-cases,
}
use attendance_tracker.Numerics.{Numerics}
use attendance_tracker.Images
use attendance_tracker.Recognition
use attendance_tracker.Registration

-- `n` times `x`
abbrev pub copies : {A : Type 0} → ℕ → A → List A
copies ℕ.zero x = []
copies (suc n) x = x ∷ copies n x

module _ (v : Numerics) (c : Recognition.RecognitionConfig v) where
  -- the score where all four tests pass
  abbrev pub full_score : v.Float
  full_score = v.over (v.decimal 4 0) (v.decimal 40 1)

  valid_score :
      (size blur brightness contrast : Bool)
      → (Images.quality_of v size blur brightness contrast).valid ≡ true
      → (Images.quality_of v size blur brightness contrast).overall_score ≡ full_score
  valid_score true true true true h = refl
  valid_score true true true false h = absurd (ground (arith, h))
  valid_score true true false contrast h = absurd (ground (arith, h))
  valid_score true false brightness contrast h = absurd (ground (arith, h))
  valid_score false blur brightness contrast h = absurd (ground (arith, h))

  check_quality_score :
      (q : Images.QualityChecker v) (face : v.Image)
      → (Images.check_quality v q face).valid ≡ true
      → (Images.check_quality v q face).overall_score ≡ full_score
  unfolding Images.check_quality
  check_quality_score q face h = valid_score _ _ _ _ h

  IsFull : Registration.Samples v → Type 0
  IsFull s = s.quality_scores ≡ copies (length s.embeddings) full_score

  add_face-IsFull :
      (n : ℕ) (face : Option v.Image) (rest : Registration.Samples v)
      → IsFull rest
      → IsFull (Registration.add_face v c n face rest)
  unfolding IsFull
  add_face-IsFull n none rest h = h
  add_face-IsFull n (some face) rest h =
      let q = Images.quality_checker v n in
      elim (Bool-cases (Images.check_quality v q face).valid) [
        | inl e ↦ ground (arith, e, h, check_quality_score q face e)
        | inr e ↦ ground (arith, e, h)
      ]

  accept_images-IsFull :
      (n : ℕ) (texts : List Text) → IsFull (Registration.accept_images v c n texts)
  unfolding Registration.accept_images IsFull
  accept_images-IsFull n [] = refl
  accept_images-IsFull n (text ∷ texts) =
      add_face-IsFull n
        (Recognition.frame_of v c (Images.decode_base64_image v c.max_upload_size text))
        (Registration.accept_images v c n texts) (accept_images-IsFull n texts)

  -- Where the mean of equal scores is that score, and the threshold is not above a full score, the
  -- average quality of the accepted images is not below the threshold, whatever the images: an
  -- image that is accepted has a full score.
  pub average_never_below :
      (n : ℕ) (texts : List Text) (threshold : v.Float)
      → ((k : ℕ) → 0 < k → Registration.average v (copies k full_score) ≡ full_score)
      → v.less full_score threshold ≡ false
      → 0 < length (Registration.accept_images v c n texts).embeddings
      → v.less
          (Registration.average v (Registration.accept_images v c n texts).quality_scores)
          threshold
        ≡ false
  unfolding IsFull
  average_never_below n texts threshold mean top some_images =
      let k = length (Registration.accept_images v c n texts).embeddings in
      subst (λ x. v.less x threshold ≡ false)
        (sym (ap (Registration.average v) (accept_images-IsFull n texts) ∙ mean k some_images)) top
