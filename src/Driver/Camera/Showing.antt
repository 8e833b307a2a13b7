-- ===== src/Driver/Camera/Showing.antt =====
-- The pipeline of a camera thread of streaming_driver/main.cpp, once its swaps have run, in every
-- interleaving with ControlLoop and the probes.
use but_telepresence.Prelude.{
  ℕ, ◌<◌, ◌^◌, ◌≡◌, none, List, [], ◌∷◌, ◌⊎◌, inl, inr, Option-cases, All,
}
use but_telepresence.Prelude.Int.{ℤ}
use but_telepresence.Driver.Config.{StreamingConfig}
use but_telepresence.Driver.Elements.{get_encoder_tail_description}
use but_telepresence.Driver.Pipeline.{Gst, build_camera_pipeline}
use but_telepresence.Driver.Pipeline.Shape.{Works}
use but_telepresence.Driver.Pipeline.Draining.{drain, drain-Leads}
use but_telepresence.Driver.Camera.{Shared, Running, Phase, Camera}
use but_telepresence.Driver.Camera.Pieces.{IsCurrent}
use but_telepresence.Driver.Camera.Updates.{Reach, here, next, Reach-IsCurrent}
use but_telepresence.Driver.Camera.Following.{Follows, IsFollowing, Step-IsFollowing}

-- A swap waits whose codec has no encoder tail.
abbrev pub HasUnsupported : List StreamingConfig → Type 0
HasUnsupported [] = ⊥
HasUnsupported (s ∷ swaps) = (get_encoder_tail_description s ≡ none) ⊎ HasUnsupported swaps

supported_or_not :
    (swaps : List StreamingConfig)
    → All (λ s. (get_encoder_tail_description s ≡ none) → ⊥) swaps ⊎ HasUnsupported swaps
supported_or_not [] = inl tt
supported_or_not (s ∷ swaps) = elim (Option-cases (get_encoder_tail_description s)) [
  | inl n ↦ inr (inl n)
  | inr (t, e) ↦ elim (supported_or_not swaps) [ inl a ↦ inl (λ n. cc, a) | inr u ↦ inr (inr u) ]
]

-- Once the swaps that wait have run, the pipeline is the one that is built for the configuration, but
-- perhaps for another quality and bitrate; or one of them cannot run.
abbrev pub Shows : Gst → (sensor_id : ℤ) → StreamingConfig → Running → Type 0
Shows g sensor_id cfg r =
    HasUnsupported r.swaps
    ⊎ ((quality : ℤ) × (bitrate : ℤ) × (drain g r.pipeline r.swaps
          ≡ build_camera_pipeline g sensor_id
              (record cfg { encoding_quality = quality; bitrate = bitrate })))

abbrev pub IsShowing : Gst → Camera → Phase → Type 0
IsShowing g c (Phase.streaming r) = Shows g c.sensor_id c.current_config r
IsShowing g c (Phase.noticed r errored v) = Shows g c.sensor_id c.current_config r
IsShowing g c _ = Unit {0}

Follows-Shows :
    (g : Gst) (sensor_id : ℤ) (cfg : StreamingConfig) (r : Running)
    → Works g
    → Follows sensor_id cfg r
    → Shows g sensor_id cfg r
Follows-Shows g sensor_id cfg r w f = elim (supported_or_not r.swaps) [
  | inl a ↦ inr (
    f.quality,
    f.bitrate,
    drain-Leads g w sensor_id cfg f.quality f.bitrate r.pipeline r.swaps a f.leads,
  )
  | inr u ↦ inl u
]

IsFollowing-IsShowing :
    (g : Gst) (c : Camera) (p : Phase) → Works g → IsFollowing c p → IsShowing g c p
IsFollowing-IsShowing g c (Phase.streaming r) w f =
    Follows-Shows g c.sensor_id c.current_config r w f
IsFollowing-IsShowing g c (Phase.noticed r b v) w f =
    Follows-Shows g c.sensor_id c.current_config r w f
IsFollowing-IsShowing g c Phase.head w f = tt
IsFollowing-IsShowing g c Phase.resting w f = tt
IsFollowing-IsShowing g c Phase.finished w f = tt
IsFollowing-IsShowing g c Phase.crashed w f = tt
IsFollowing-IsShowing g c (Phase.building cfg) w f = tt
IsFollowing-IsShowing g c (Phase.teardown a b) w f = tt

Reach-IsFollowing :
    (g : Gst) {m : ℕ} {s : Shared} {c : Camera} {n : ℕ} {t : Shared} {d : Camera}
    → Works g
    → Reach g m s c n t d
    → IsFollowing c c.phase
    → IsFollowing d d.phase
Reach-IsFollowing g w here f = f
Reach-IsFollowing g w (next r x) f = Step-IsFollowing g w x (Reach-IsFollowing g w r f)

-- What the thread knows, and what its pipeline shows.
pub record IsUpToDate (g : Gst) (lines : ℕ) (s : Shared) (c : Camera) : Type 0 where
  current : IsCurrent lines s c
  showing : IsShowing g c c.phase

-- If every call of GStreamer that makes a part of a pipeline succeeds and fewer than 2^64 lines are
-- read, then in every interleaving of the lines, the camera thread and the swaps, from a state in
-- which the thread knows what IsCurrent says and the pipeline follows the recorded configuration:
-- while the thread streams, the pipeline, once the swaps that wait have run, is the one that is
-- built for the recorded configuration, but perhaps for another quality and bitrate, unless a swap
-- waits whose codec has no encoder tail; the recorded configuration is the published one if the
-- thread has seen the published version; and there are at most 5 failures, none while it streams.
pub Reach-IsUpToDate :
    (g : Gst) {m : ℕ} {s : Shared} {c : Camera} {n : ℕ} {t : Shared} {d : Camera}
    → Works g
    → Reach g m s c n t d
    → n < 2 ^ 64
    → IsCurrent m s c
    → IsFollowing c c.phase
    → IsUpToDate g n t d
Reach-IsUpToDate g {m} {s} {c} {n} {t} {d} w r h v f = record {
  current = Reach-IsCurrent g r h v;
  showing = IsFollowing-IsShowing g d d.phase w (Reach-IsFollowing g w r f);
}
