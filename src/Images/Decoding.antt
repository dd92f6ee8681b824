-- ===== src/Images/Decoding.antt =====
-- Which payloads decode.
use attendance_tracker.Prelude.{
  ℕ, ◌*◌, ◌≡◌, ◌≤◌, ◌<◌, ap, ◌∙◌, Text, some, List, length, ◌↔◌, inl, inr, arith, Option-cases,
}
use attendance_tracker.Database.Session.{ok}
use attendance_tracker.Numerics.{Numerics}
use attendance_tracker.Images

module _ (v : Numerics) (max_upload_size : ℕ) (s : Text) where
  -- a payload within the limits, and its image
  pub record Decodes (image : v.Image) : Type 0 where
    pub short : length s ≤ Images.max_b64_len max_upload_size
    pub bytes : List ℕ
    pub decoded : v.b64decode (Images.without_prefix s) ≡ some bytes
    pub some_bytes : 0 < length bytes
    pub few_bytes : length bytes ≤ max_upload_size
    pub format : v.imdecode bytes ≡ some image
    pub few_pixels : v.height image * v.width image ≤ Images.max_image_pixels

  decodes-ok :
      (image : v.Image) → Decodes image → Images.decode_base64_image v max_upload_size s ≡ ok image
  unfolding Images.decode_base64_image
  decodes-ok image d =
      ground (arith, d.short, d.decoded, d.some_bytes, d.few_bytes, d.format, d.few_pixels)

  ok-decodes :
      (image : v.Image) → Images.decode_base64_image v max_upload_size s ≡ ok image → Decodes image
  unfolding Images.decode_base64_image
  ok-decodes image h = elim (Option-cases (v.b64decode (Images.without_prefix s))) [
    | inl e ↦ absurd (ground (arith, h, e))
    | inr (bytes, e) ↦ elim (Option-cases (v.imdecode bytes)) [
      | inl f ↦ absurd (ground (arith, h, e, f))
      | inr (other, f) ↦
          let same : other ≡ image = ground (arith, h, e, f) in
          record {
            short = ground (arith, h, e, f);
            bytes = bytes;
            decoded = e;
            some_bytes = ground (arith, h, e, f);
            few_bytes = ground (arith, h, e, f);
            format = f ∙ ap some same;
            few_pixels = ground (arith, h, e, f, same);
          }
    ]
  ]

  -- A payload decodes to an image exactly if it is short enough, is valid base64 after its prefix,
  -- of some bytes and not more than the upload size, and these are an image of the format with at
  -- most 4096 times 4096 pixels.
  pub decode_base64_image_iff :
      (image : v.Image)
      → (Images.decode_base64_image v max_upload_size s ≡ ok image) ↔ Decodes image
  decode_base64_image_iff image = (ok-decodes image, decodes-ok image)
