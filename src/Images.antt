-- ===== src/Images.antt =====
-- `decode_base64_image` of src/api/routes/recognition.py and `QualityChecker.check` of
-- src/preprocessing/quality_checker.py. The scores that `check` reports and no route reads are left
-- out of its answer.
pub mod Decoding
use attendance_tracker.Prelude.{
  ℕ, ◌+◌, ◌*◌, ◌/◌, min, Text, Option, none, some, Bool, true, false, not, ◌&&◌, ◌||◌, List, [],
  ◌∷◌, length, any, ltb, if◌then◌else◌, ◌==◌,
}
use attendance_tracker.Database.Session.{Failure, http, Result, ok, err}
use attendance_tracker.Numerics.{Numerics}

-- `MAX_IMAGE_PIXELS`
abbrev pub max_image_pixels : ℕ
max_image_pixels = 4096 * 4096

-- `max_b64_len`
abbrev pub max_b64_len : ℕ → ℕ
max_b64_len max_upload_size = (max_upload_size + 2) / 3 * 4 + 64

-- `"," in text`, and the text after the first comma
abbrev pub after_comma : Text → Text
after_comma [] = []
after_comma (c ∷ cs) = let rest = after_comma cs in if c == 44 then cs else rest

abbrev pub without_prefix : Text → Text
without_prefix s = if any (λ c. c == 44) s then after_comma s else s

abbrev pub payload_too_large : Failure
payload_too_large = http 413 "Image payload exceeds the upload size"

abbrev pub invalid_base64 : Failure
invalid_base64 = http 400 "Invalid base64 image data"

abbrev pub empty_payload : Failure
empty_payload = http 400 "Empty image payload"

abbrev pub unsupported_format : Failure
unsupported_format = http 400 "Unsupported image format"

abbrev pub image_too_large : Failure
image_too_large = http 413 "Image too large"

abbrev pub sized_image : (v : Numerics) → Option v.Image → Result v.Image
sized_image v none = err unsupported_format
sized_image v (some image) =
    if ltb max_image_pixels (v.height image * v.width image) then err image_too_large else ok image

abbrev pub image_of_bytes : (v : Numerics) → ℕ → Option (List ℕ) → Result v.Image
image_of_bytes v max_upload_size none = err invalid_base64
image_of_bytes v max_upload_size (some image_data) =
    if length image_data == 0
    then err empty_payload
    else if ltb max_upload_size (length image_data)
    then err payload_too_large
    else sized_image v (v.imdecode image_data)

-- `decode_base64_image`
unfoldable pub decode_base64_image : (v : Numerics) → ℕ → Text → Result v.Image
decode_base64_image v max_upload_size base64_str =
    if ltb (max_b64_len max_upload_size) (length base64_str)
    then err payload_too_large
    else image_of_bytes v max_upload_size (v.b64decode (without_prefix base64_str))

pub record QualityChecker (v : Numerics) : Type 0 where
  pub min_face_size : ℕ
  pub min_sharpness : v.Float
  pub min_brightness : v.Float
  pub max_brightness : v.Float
  pub min_contrast : v.Float

-- `QualityChecker(min_face_size=n)`
abbrev pub quality_checker : (v : Numerics) → ℕ → QualityChecker v
quality_checker v n = record {
  min_face_size = n;
  min_sharpness = v.decimal 120 1;
  min_brightness = v.decimal 50 0;
  max_brightness = v.decimal 200 0;
  min_contrast = v.decimal 300 1;
}

pub record Quality (v : Numerics) : Type 0 where
  pub valid : Bool
  pub face_size : Bool
  pub blur : Bool
  pub brightness : Bool
  pub contrast : Bool
  pub overall_score : v.Float

abbrev pub one_if : Bool → ℕ
one_if b = if b then 1 else 0

-- `results`, from the four tests
abbrev pub quality_of : (v : Numerics) → Bool → Bool → Bool → Bool → Quality v
quality_of v size blur brightness contrast = record {
  valid = size && blur && brightness && contrast;
  face_size = size;
  blur = blur;
  brightness = brightness;
  contrast = contrast;
  overall_score =
      v.over (v.decimal (one_if size + one_if blur + one_if brightness + one_if contrast) 0)
        (v.decimal 40 1);
}

-- `QualityChecker.check`
unfoldable pub check_quality : (v : Numerics) → QualityChecker v → v.Image → Quality v
check_quality v q image =
    quality_of v (not (ltb (min (v.height image) (v.width image)) q.min_face_size))
      (not (v.less (v.sharpness image) q.min_sharpness))
      (v.at_least (v.brightness image) q.min_brightness
        && v.at_least q.max_brightness (v.brightness image))
      (not (v.less (v.contrast image) q.min_contrast))
