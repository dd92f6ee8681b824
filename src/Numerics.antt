-- ===== src/Numerics.antt =====
-- What the program takes from NumPy, OpenCV, scikit-image, MediaPipe, FAISS and ONNX Runtime, and
-- Python's floats. No law is assumed here; a theorem that needs one names it.
use attendance_tracker.Prelude.{ℕ, Text, Option, Bool, List, if◌then◌else◌}
use attendance_tracker.Database.Session.{Result}

pub record Numerics : Type 1 where
  pub Float : Type 0
  -- the literal `m * 10 ** -e`
  pub decimal : ℕ → ℕ → Float
  pub plus : Float → Float → Float
  pub minus : Float → Float → Float
  pub times : Float → Float → Float
  pub over : Float → Float → Float
  -- `float(text)`, none where it raises
  pub parse : Text → Option Float
  -- `a < b`, `a >= b`
  pub less : Float → Float → Bool
  pub at_least : Float → Float → Bool
  -- `int(x)`, as a float
  pub truncate : Float → Float
  -- `round(x, n)`
  pub round : ℕ → Float → Float
  -- `np.hypot`, `np.linalg.norm` of a plane vector
  pub hypot : Float → Float → Float
  -- `np.mean`
  pub mean : List Float → Float
  -- a face template, with `astype(np.float32)`, and its bytes
  pub Embedding : Type 0
  pub dot : Embedding → Embedding → Float
  pub to_bytes : Embedding → List ℕ
  pub of_bytes : List ℕ → Embedding
  -- `np.stack`, `mean(axis=0)` and the division by the norm
  pub mean_embedding : List Embedding → Embedding
  -- `np.argsort`
  pub argsort : List Float → List ℕ
  -- an index over the vectors, one more vector, and the nearest positions, none for -1
  pub Index : Type 0
  pub build_index : List Embedding → Index
  pub index_add : Embedding → Index → Index
  pub index_reset : Index → Index
  pub search : Index → Embedding → ℕ → List (Float × Option ℕ)
  -- an RGB image or crop, its size, and the variance of its local binary pattern
  pub Image : Type 0
  pub height : Image → ℕ
  pub width : Image → ℕ
  pub texture : Image → Float
  -- `cv2.cvtColor(image, cv2.COLOR_BGR2RGB)`, which swaps two channels
  pub bgr_to_rgb : Image → Image
  -- variance of the Laplacian, mean and deviation of the gray image
  pub sharpness : Image → Float
  pub brightness : Image → Float
  pub contrast : Image → Float
  -- `base64.b64decode(text, validate=True)`, none where it raises
  pub b64decode : Text → Option (List ℕ)
  -- `cv2.imdecode` with the conversion to RGB, and the face detector and embedding network on an
  -- image
  pub imdecode : List ℕ → Option Image
  pub detect_face : Image → Option Image
  pub embed : Image → Embedding
  -- the face mesh tracks from frame to frame; a landmark has an x and a y
  pub Mesh : Type 0
  pub mesh : Image → Mesh → Result (Option (ℕ → Float × Float)) × Mesh

-- `max(a, b)` of two floats
abbrev pub max_float : (v : Numerics) → v.Float → v.Float → v.Float
max_float v a b = if v.less a b then b else a
