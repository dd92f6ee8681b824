-- ===== src/OrgSettings/Floor.antt =====
-- The floor under the threshold of recognition.
use attendance_tracker.Prelude.{ℕ, ◌≡◌, refl, true, false, codes, Bool-cases, inl, inr, arith}
use attendance_tracker.Database.Rows.{Db}
use attendance_tracker.Database.Session.{ok}
use attendance_tracker.Numerics.{Numerics, max_float}
use attendance_tracker.OrgSettings

pub max_float_floor :
    (v : Numerics) (a b : v.Float) → v.less b b ≡ false → v.less (max_float v a b) b ≡ false
max_float_floor v a b irreflexive = elim (Bool-cases (v.less a b)) [
  | inl e ↦ rw e irreflexive
  | inr e ↦ rw e e
]

-- Where no recognition threshold is stored, or the stored one is read as a number, the settings of
-- an organization load. Their threshold is the larger of that number, or of the default, and the
-- floor, so it is not below the floor, where the comparison does not hold of the floor and itself.
pub load_org_settings_floor :
    (v : Numerics) (g : OrgSettings.ModelSettings v) (organization_id : ℕ) (db : Db) (x : v.Float)
    → v.less g.intra_org_threshold_floor g.intra_org_threshold_floor ≡ false
    → OrgSettings.float_setting v g.match_threshold_default (
        OrgSettings.given (
          OrgSettings.lookup
            (codes "recognition_threshold")
            (OrgSettings.stored_settings organization_id db)))
      ≡ ok x
    → (s : OrgSettings.LoadedSettings v) × (OrgSettings.load_org_settings v g organization_id db
        ≡ ok s)
      × (s.recognition_threshold ≡ max_float v x g.intra_org_threshold_floor)
      × (v.less s.recognition_threshold g.intra_org_threshold_floor ≡ false)
unfolding OrgSettings.load_org_settings
load_org_settings_floor v g organization_id db x irreflexive h =
    let stored = OrgSettings.stored_settings organization_id db in
    let s : OrgSettings.LoadedSettings v = record {
      require_liveness_check =
          OrgSettings.bool_setting v true
            (OrgSettings.given (OrgSettings.lookup (codes "require_liveness_check") stored));
      recognition_threshold = max_float v x g.intra_org_threshold_floor;
      liveness =
          OrgSettings.float_setting v g.liveness_threshold
            (OrgSettings.given (OrgSettings.lookup (codes "liveness_threshold") stored));
    } in
    (s, ground (arith, h), refl, max_float_floor v x g.intra_org_threshold_floor irreflexive)
