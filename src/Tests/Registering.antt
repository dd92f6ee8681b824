-- ===== src/Tests/Registering.antt =====
-- Witnesses for the theorems on face registration.
use attendance_tracker.Prelude.{refl, [], ◌∷◌, codes, arith}
use attendance_tracker.Registration
use attendance_tracker.Registration.Template.{Encodes}
use attendance_tracker.Registration.Registered.{Begins, Stored, register_user_face_accepts}
use attendance_tracker.Registration.Removed.{Gone, deregister_user_face_lem}
use attendance_tracker.Tests.{bob, numbers, ann}
use attendance_tracker.Tests.Vision.{config, world}

starts : Begins numbers config world
starts = record {
  fresh = refl;
  unique = λ u. ground arith;
  sound = λ org m e. absurd (ground (arith, e));
}

four_bytes : Encodes numbers 1
four_bytes = record { some_floats = omega arith; four_each = λ x. refl; back = λ x. refl }

abbrev upload : Registration.RegistrationUploadRequest numbers
upload = record {
  images_base64 = codes "abc" ∷ codes "ab" ∷ codes "abcd" ∷ [];
  quality_threshold = 1;
}

register_user_face_accepts_example :
    Stored numbers config world 1 bob
      (Registration.accept_images numbers config 40 upload.images_base64)
      (Registration.register_user_face numbers config 80 upload ann 11 world)
unfolding Registration.accept_images
register_user_face_accepts_example =
    register_user_face_accepts numbers config world 80 11 upload ann bob starts (refl, (refl, tt))
      four_bytes refl refl (omega arith) refl

deregister_user_face_lem_example :
    Gone numbers config world 1 bob (Registration.deregister_user_face numbers config ann 11 world)
deregister_user_face_lem_example =
    deregister_user_face_lem numbers config world 11 ann bob starts (refl, (refl, tt)) refl
