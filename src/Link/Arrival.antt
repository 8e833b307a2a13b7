-- ===== src/Link/Arrival.antt =====
-- A configuration that the headset pushes, up to the camera threads of streaming_driver/main.cpp.
use but_telepresence.Prelude.{
  ℕ, suc, ◌≤◌, ◌<◌, ◌^◌, ◌≡◌, refl, sym, ap, subst, ◌∙◌, false, ◌&&◌, Option, none, some, List, [],
  inl, arith, length, ◌==◌, All,
}
use but_telepresence.Prelude.Int.{ℤ, pos, int_eq}
use but_telepresence.Prelude.Words.{u64}
use but_telepresence.Headset.Config.{StreamingConfig}
use but_telepresence.Headset.Rest.{request_body}
use but_telepresence.Headset.Settings.Bounds.{IsUsable}
use but_telepresence.Driver.Config as DriverConfig
use but_telepresence.Driver.Config.{VideoMode, video_mode_eq}
use but_telepresence.Driver.Pipeline.{Gst, build_camera_pipeline}
use but_telepresence.Driver.Pipeline.Shape.{Works}
use but_telepresence.Driver.Camera.{Shared, Line, Phase, Camera, publish, control_loop}
use but_telepresence.Driver.Camera.Pieces.{IsCurrent}
use but_telepresence.Driver.Camera.Updates.{publish-IsCurrent}
use but_telepresence.Driver.Camera.Stops.{Answers, turns}
use but_telepresence.Driver.Camera.Going.{IsSupported, IsGoing}
use but_telepresence.Driver.Camera.Settles.{IsGood, IsStreaming, Streams, turns-Streams}
use but_telepresence.Driver.Camera.Following.{IsFollowing}
use but_telepresence.Driver.Camera.Arriving.{IsArriving, Builds, Arrives-Builds, turns-IsArriving}
use but_telepresence.Link.{received, cfg_dict_from_state}
use but_telepresence.Link.Delivery.{received_lem, map_config, codec_meant, video_mode_meant}
use but_telepresence.Link.Offered.{IsStreamable, received-IsStreamable}

-- The thread has not ended, and no swap waits. It may have given up.
abbrev pub IsAlive : Phase → Type 0
IsAlive Phase.finished = ⊥
IsAlive Phase.crashed = ⊥
IsAlive (Phase.streaming r) = r.swaps ≡ []
IsAlive (Phase.noticed r errored v) = r.swaps ≡ []
IsAlive _ = Unit {0}

-- The line that the server writes for a configuration.
abbrev pub pushed_line : StreamingConfig → Line
pushed_line c = Line.update (some (cfg_dict_from_state (request_body c c)))

-- A new version makes a thread go on that had given up.
publish-IsGoing :
    (cfg : DriverConfig.StreamingConfig) (n : ℕ) (s : Shared) (c : Camera) (p : Phase)
    → suc n < 2 ^ 64
    → IsCurrent n s c
    → IsAlive p
    → IsGoing (publish (some cfg) s) c p
publish-IsGoing cfg n s c p h v a =
    let unseen : (u64 (suc s.version) == c.seen_version) ≡ false =
      grind (arith, v.version, v.seen, h) in
    go p a unseen
  where
    go :
        (q : Phase)
        → IsAlive q
        → (u64 (suc s.version) == c.seen_version) ≡ false
        → IsGoing (publish (some cfg) s) c q
    go Phase.finished i e = i
    go Phase.crashed i e = i
    go Phase.resting i e = e
    go Phase.head i e = ground (arith, e)
    go (Phase.streaming r) i e = subst (All IsSupported) (sym i) tt
    go (Phase.noticed r b v) i e = subst (All IsSupported) (sym i) tt
    go _ i e = tt

builds_streamable :
    (g : Gst) (sensor_id : ℤ) (cfg : DriverConfig.StreamingConfig)
    → Works g
    → IsStreamable (some cfg)
    → (build_camera_pipeline g sensor_id cfg ≡ none → ⊥)
unfolding build_camera_pipeline
builds_streamable g i cfg w h e = ground (arith, w, h, e)

-- What is published after the line.
published_lem :
    (c : StreamingConfig) (d : DriverConfig.StreamingConfig) (s : Shared)
    → received c ≡ some d
    → control_loop (pushed_line c) s ≡ publish (some d) s
unfolding control_loop received
published_lem c d s e = rw e refl

-- The update is still to come.
publish-IsArriving :
    (cfg : DriverConfig.StreamingConfig) (n : ℕ) (s : Shared) (c : Camera) (p : Phase)
    → suc n < 2 ^ 64
    → IsCurrent n s c
    → IsAlive p
    → IsFollowing c p
    → IsArriving (publish (some cfg) s) c p
publish-IsArriving cfg n s c p h v a f =
    let unseen : (u64 (suc s.version) == c.seen_version) ≡ false =
      grind (arith, v.version, v.seen, h) in
    go p a f unseen
  where
    go :
        (q : Phase)
        → IsAlive q
        → IsFollowing c q
        → (u64 (suc s.version) == c.seen_version) ≡ false
        → IsArriving (publish (some cfg) s) c q
    go (Phase.streaming r) i j e = record {
      quality = j.quality;
      bitrate = j.bitrate;
      leads = j.leads;
      due = inl (i, e);
    }
    go (Phase.noticed r b v) i j e = record {
      quality = j.quality;
      bitrate = j.bitrate;
      leads = j.leads;
      due = inl (i, refl);
    }
    go Phase.finished i j e = tt
    go Phase.crashed i j e = tt
    go Phase.resting i j e = tt
    go Phase.head i j e = tt
    go (Phase.building d) i j e = tt
    go (Phase.teardown b d) i j e = tt

arrived :
    (g : Gst) (s : Shared) (c : Camera) (p : Phase)
    → Works g
    → c.seen_version ≡ s.version
    → c.current_config ≡ s.desired
    → IsStreaming p
    → IsArriving s c p
    → Builds g c p
arrived g s c (Phase.streaming r) w e d h a = Arrives-Builds g w s c r h a e d
arrived g s c Phase.finished w e d h a = h
arrived g s c Phase.crashed w e d h a = h
arrived g s c Phase.resting w e d h a = h
arrived g s c Phase.head w e d h a = h
arrived g s c (Phase.building x) w e d h a = h
arrived g s c (Phase.noticed r b v) w e d h a = h
arrived g s c (Phase.teardown b x) w e d h a = h

-- The thread streams what the headset means, with the pipeline that is built for it once the swaps
-- that wait have run.
pub record StreamsPushed (g : Gst) (pushed : StreamingConfig) (s : Shared) (c : Camera)
    : Type 0 where
  pub streams : Streams s c
  pub builds : Builds g c c.phase
  pub meant : some c.current_config ≡ map_config pushed (codec_meant pushed.codec)

module _ (g : Gst) (n : ℕ) (answers : List Answers) (s : Shared) (c : Camera)
    (pushed : StreamingConfig) (works : Works g) (usable : IsUsable pushed)
    (goes_on : s.stop_requested ≡ false) (few : suc n < 2 ^ 64) (current : IsCurrent n s c)
    (alive : IsAlive c.phase) (following : IsFollowing c c.phase) (good : All IsGood answers)
    (enough : 6 ≤ length answers) where
  published-StreamsPushed :
      (o : Option DriverConfig.StreamingConfig)
      → received pushed ≡ o
      → IsStreamable o
      → ((d : DriverConfig.StreamingConfig)
          → o ≡ some d
          → (video_mode_eq d.video_mode VideoMode.mono && int_eq c.sensor_id (pos 1)) ≡ false)
      → StreamsPushed g pushed
          (control_loop (pushed_line pushed) s)
          (turns g answers (control_loop (pushed_line pushed) s) c)
  published-StreamsPushed none e i j = absurd i
  published-StreamsPushed (some d) e i j = rw (published_lem pushed d s e) (
      let t =
        turns-Streams g (suc n) answers (publish (some d) s) c
          (record {
            goes_on = goes_on;
            published = grind (arith, current.version, few);
            shows = j d refl;
            builds = builds_streamable g c.sensor_id d works i;
          })
          (publish-IsCurrent (some d) n s c few current)
          (publish-IsGoing d n s c c.phase few current alive) good enough in
      let a =
        turns-IsArriving g works (publish (some d) s) (suc n) answers c
          (publish-IsCurrent (some d) n s c few current)
          (publish-IsArriving d n s c c.phase few current alive following) in
      let e' = turns g answers (publish (some d) s) c in
      let b = arrived g (publish (some d) s) e' e'.phase works t.seen t.config t.streaming a in
      record { streams = t; builds = b; meant = ap some t.config ∙ (sym e ∙ received_lem pushed) })

-- If the headset pushes a usable configuration, GStreamer works and no stop is requested, and
-- fewer than 2^64 - 1 lines were read, then after the line and six or more pieces of the thread in
-- which a pipeline starts and has no error and no other line comes, the thread of a camera that the
-- mode shows streams what the headset means, and its pipeline, once a swap that may wait has run, is
-- the one that is built for that configuration, wherever it stood, and also when it had given up; it
-- must know what Reach-IsCurrent says of every interleaving and not have ended, and a pipeline that
-- it had must have been, but for quality and bitrate, that of its configuration, with no swap waiting.
pub pushed-StreamsPushed :
    (g : Gst) (n : ℕ) (answers : List Answers) (s : Shared) (c : Camera) (pushed : StreamingConfig)
    → Works g
    → IsUsable pushed
    → (video_mode_eq (video_mode_meant pushed.video_mode) VideoMode.mono
        && int_eq c.sensor_id (pos 1))
      ≡ false
    → s.stop_requested ≡ false
    → suc n < 2 ^ 64
    → IsCurrent n s c
    → IsAlive c.phase
    → IsFollowing c c.phase
    → All IsGood answers
    → 6 ≤ length answers
    → StreamsPushed g pushed
        (control_loop (pushed_line pushed) s)
        (turns g answers (control_loop (pushed_line pushed) s) c)
pushed-StreamsPushed g n answers s c pushed w u m f h v a j b l =
    published-StreamsPushed g n answers s c pushed w u f h v a j b l (received pushed) refl
      (received-IsStreamable pushed u)
      (λ d e. same_mode d (codec_meant pushed.codec) (sym e ∙ received_lem pushed))
  where
    same_mode :
        (d : DriverConfig.StreamingConfig) (k : Option DriverConfig.Codec)
        → some d ≡ map_config pushed k
        → (video_mode_eq d.video_mode VideoMode.mono && int_eq c.sensor_id (pos 1)) ≡ false
    same_mode d none e = cc
    same_mode d (some k) e =
        subst (λ x. (video_mode_eq x VideoMode.mono && int_eq c.sensor_id (pos 1)) ≡ false) (cc) m
