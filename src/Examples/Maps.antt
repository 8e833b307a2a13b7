-- ===== src/Examples/Maps.antt =====
-- The timestamp map of both programs (VR_App and streaming_driver).
use but_telepresence.Prelude.{◌≡◌, refl, List, [], ◌∷◌, arith}
use but_telepresence.Pts.{PtsMap, Call, stores, consumes, store, consume, run, find}
use but_telepresence.Pts.Laws.{IsBounded, run-IsBounded}

abbrev two_frames : PtsMap
two_frames = (100, 7) ∷ (116, 9) ∷ []

two_frames-IsBounded : IsBounded two_frames
unfolding find
two_frames-IsBounded = record { unique = (refl, (refl, tt)); size = omega arith }

abbrev history : List Call
history = stores 133 11 ∷ consumes 116 ∷ consumes 100 ∷ []

frame_delivered : run history two_frames ≡ (133, 11) ∷ []
unfolding run store consume find
frame_delivered = refl

run-IsBounded_example : IsBounded (run history two_frames)
run-IsBounded_example = run-IsBounded history two_frames two_frames-IsBounded
