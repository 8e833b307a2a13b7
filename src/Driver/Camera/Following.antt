-- ===== src/Driver/Camera/Following.antt =====
-- The pipeline of a camera thread of streaming_driver/main.cpp against the configuration that the
-- thread has recorded for it, in each step of the thread, of ControlLoop and of the probes.
use but_telepresence.Prelude.{
  ℕ, ◌≡◌, refl, subst, Bool, true, List, [], ◌∷◌, arith, ◌⊎◌, inl, inr, Bool-cases, Option-cases,
}
use but_telepresence.Prelude.Int.{ℤ}
use but_telepresence.Driver.Config.{StreamingConfig, can_update_dynamically}
use but_telepresence.Driver.Pipeline.{
  Gst, Pipeline, swapped, uncaught, swap_encoder_probe, build_camera_pipeline,
  update_pipeline_properties, changes_tail,
}
use but_telepresence.Driver.Pipeline.Shape.{Works}
use but_telepresence.Driver.Pipeline.Update.{can_update-SameEndpoint}
use but_telepresence.Driver.Pipeline.Leading.{Leads, built-Leads, arms-Leads, keeps-Leads}
use but_telepresence.Driver.Pipeline.Draining.{swap-Leads}
use but_telepresence.Driver.Camera.{
  Shared, Running, Phase, Camera, arm, advance, read_config, wake, start_pipeline, poll,
  apply_config, stop_pipeline, buffer_flows, run_swap,
}
use but_telepresence.Driver.Camera.Updates.{Step, reads_line, advances, flows}

-- The pipeline with its swaps leads to that of the configuration, but for quality and bitrate.
pub record Follows (sensor_id : ℤ) (cfg : StreamingConfig) (r : Running) : Type 0 where
  pub quality : ℤ
  pub bitrate : ℤ
  pub leads : Leads sensor_id cfg quality bitrate r.pipeline r.swaps

abbrev pub IsFollowing : Camera → Phase → Type 0
IsFollowing c (Phase.streaming r) = Follows c.sensor_id c.current_config r
IsFollowing c (Phase.noticed r errored v) = Follows c.sensor_id c.current_config r
IsFollowing c _ = Unit {0}

-- What an update makes of a pipeline and its swaps.
abbrev pub updated_running : Gst → Running → (old new : StreamingConfig) → Running
updated_running g r old new = record {
  pipeline = (update_pipeline_properties g r.pipeline old new).pipeline;
  swaps = arm (update_pipeline_properties g r.pipeline old new).pending r.swaps;
}

-- A swap of a pipeline that waits keeps what holds of it, or ends in an exception.
abbrev pub SwapKeeps :
    Gst → (Running → Type 0) → Running → StreamingConfig → List StreamingConfig → Type 0
SwapKeeps g Q r s swaps =
    (swap_encoder_probe g r.pipeline s ≡ uncaught)
    ⊎ ((p : Pipeline) × (k : Bool) × (swap_encoder_probe g r.pipeline s ≡ swapped p k)
        × Q (record { pipeline = p; swaps = swaps }))

pub run_swap-keeps :
    (g : Gst) (stand : Running → Phase) (P : Phase → Type 0) (Q : Running → Type 0)
    → P Phase.crashed
    → ((r : Running) → Q r → P (stand r))
    → ((r : Running) (s : StreamingConfig) (swaps : List StreamingConfig)
        → r.swaps ≡ s ∷ swaps
        → Q r
        → SwapKeeps g Q r s swaps)
    → (r : Running) (waiting : List StreamingConfig) → r.swaps ≡ waiting
    → Q r
    → P (run_swap g r stand)
unfolding run_swap
run_swap-keeps g stand P Q c h k r [] e q = rw (e, run_swap) (h r q)
run_swap-keeps g stand P Q c h k r (s ∷ swaps) e q = elim (k r s swaps e q) [
  | inl u ↦ rw (e, run_swap) (rw u c)
  | inr (p, f, u, i) ↦ rw (e, run_swap) (rw u (h (record { pipeline = p; swaps = swaps }) i))
]

module _ (g : Gst) (w : Works g) where
  -- An update leads to the new configuration, exactly unless it is made in place while a swap waits.
  pub updated-Leads :
      (sensor_id : ℤ) (old new : StreamingConfig) (q b : ℤ) (r : Running)
      → can_update_dynamically old new ≡ true
      → Leads sensor_id old q b r.pipeline r.swaps
      → (Leads sensor_id new new.encoding_quality new.bitrate
          (updated_running g r old new).pipeline
          (updated_running g r old new).swaps)
        ⊎ ((r.swaps ≡ [] → ⊥)
            × Leads sensor_id new q b
                (updated_running g r old new).pipeline
                (updated_running g r old new).swaps)
  unfolding update_pipeline_properties
  updated-Leads sensor_id old new q b r h l = elim (Bool-cases (changes_tail old new)) [
    | inl c ↦
        let (k, m) =
          arms-Leads g w sensor_id old new q b r.pipeline r.swaps
            (can_update-SameEndpoint old new h) l in
        inl (rw (c, update_pipeline_properties) (rw k m))
    | inr c ↦
        elim (keeps-Leads g w sensor_id old new q b r.pipeline r.swaps
          (can_update-SameEndpoint old new h) c l) [
            | inl m ↦ inl (rw (c, update_pipeline_properties) m.1)
            | inr m ↦ inr (m.0, rw (c, update_pipeline_properties) m.1)
          ]
  ]

  updated-Follows :
      (sensor_id : ℤ) (old new : StreamingConfig) (r : Running)
      → can_update_dynamically old new ≡ true
      → Follows sensor_id old r
      → Follows sensor_id new (updated_running g r old new)
  updated-Follows sensor_id old new r h f =
      elim (updated-Leads sensor_id old new f.quality f.bitrate r h f.leads) [
        | inl l ↦ record { quality = new.encoding_quality; bitrate = new.bitrate; leads = l }
        | inr l ↦ record { quality = f.quality; bitrate = f.bitrate; leads = l.1 }
      ]

  swap-Follows :
      (sensor_id : ℤ) (cfg : StreamingConfig) (r : Running) (s : StreamingConfig)
      (swaps : List StreamingConfig)
      → r.swaps ≡ s ∷ swaps
      → Follows sensor_id cfg r
      → SwapKeeps g (Follows sensor_id cfg) r s swaps
  swap-Follows sensor_id cfg r s swaps e f =
      elim (swap-Leads g w sensor_id cfg s f.quality f.bitrate r.pipeline swaps
        (subst (Leads sensor_id cfg f.quality f.bitrate r.pipeline) e f.leads)) [
          | inl u ↦ inl u.1
          | inr (p, k, u, l) ↦
              inr (p, k, u, record { quality = f.quality; bitrate = f.bitrate; leads = l })
        ]

  start_pipeline-IsFollowing :
      (plays : Bool) (cfg : StreamingConfig) (c : Camera)
      → IsFollowing (start_pipeline g plays cfg c) (start_pipeline g plays cfg c).phase
  unfolding start_pipeline
  start_pipeline-IsFollowing plays cfg c =
      elim (Option-cases (build_camera_pipeline g c.sensor_id cfg)) [
        | inl e ↦ rw (e, start_pipeline) tt
        | inr (p, e) ↦
            let f : Follows c.sensor_id cfg (record { pipeline = p; swaps = [] }) = record {
              quality = cfg.encoding_quality;
              bitrate = cfg.bitrate;
              leads = built-Leads g w c.sensor_id cfg p e;
            } in
            rw (e, start_pipeline) (ground (arith, f))
      ]

  apply_config-IsFollowing :
      (s : Shared) (r : Running) (errored : Bool) (v : ℕ) (c : Camera)
      → Follows c.sensor_id c.current_config r
      → IsFollowing (apply_config g s r errored v c) (apply_config g s r errored v c).phase
  unfolding apply_config
  apply_config-IsFollowing s r errored v c f =
      elim (Bool-cases (can_update_dynamically c.current_config s.desired)) [
        | inl h ↦
            let u = updated-Follows c.sensor_id c.current_config s.desired r h f in
            ground (arith, u)
        | inr h ↦ ground (arith, h)
      ]

  poll-IsFollowing :
      (s : Shared) (errored : Bool) (r : Running) (c : Camera)
      → Follows c.sensor_id c.current_config r
      → IsFollowing (poll s errored r c) (poll s errored r c).phase
  unfolding poll
  poll-IsFollowing s errored r c f = ground (arith, f)

  advance-IsFollowing :
      (plays errored : Bool) (s : Shared) (c : Camera) (p : Phase)
      → c.phase ≡ p
      → IsFollowing c p
      → IsFollowing (advance g plays errored s c) (advance g plays errored s c).phase
  unfolding advance read_config wake stop_pipeline
  advance-IsFollowing plays errored s c (Phase.building cfg) e f =
      rw (e, advance) (start_pipeline-IsFollowing plays cfg c)
  advance-IsFollowing plays errored s c (Phase.streaming r) e f =
      rw (e, advance) (poll-IsFollowing s errored r c f)
  advance-IsFollowing plays errored s c (Phase.noticed r b v) e f =
      rw (e, advance) (apply_config-IsFollowing s r b v c f)
  advance-IsFollowing plays errored s c Phase.finished e f = rw (e, advance) (rw e tt)
  advance-IsFollowing plays errored s c Phase.crashed e f = rw (e, advance) (rw e tt)
  advance-IsFollowing plays errored s c _ e f = rw (e, advance) (ground arith)

  buffer_flows-IsFollowing :
      (c : Camera) (p : Phase)
      → c.phase ≡ p
      → IsFollowing c p
      → IsFollowing (buffer_flows g c) (buffer_flows g c).phase
  unfolding buffer_flows
  buffer_flows-IsFollowing c (Phase.streaming r) e f =
      rw (e, buffer_flows)
        (run_swap-keeps g Phase.streaming (IsFollowing c) (Follows c.sensor_id c.current_config) tt
          (λ q i. i) (swap-Follows c.sensor_id c.current_config) r r.swaps refl f)
  buffer_flows-IsFollowing c (Phase.noticed r b v) e f =
      rw (e, buffer_flows)
        (run_swap-keeps g (λ q. Phase.noticed q b v) (IsFollowing c)
          (Follows c.sensor_id c.current_config) tt (λ q i. i)
          (swap-Follows c.sensor_id c.current_config) r r.swaps refl f)
  buffer_flows-IsFollowing c _ e f = rw (e, buffer_flows) (rw e tt)

  pub Step-IsFollowing :
      {m : ℕ} {s : Shared} {c : Camera} {n : ℕ} {t : Shared} {d : Camera}
      → Step g m s c n t d
      → IsFollowing c c.phase
      → IsFollowing d d.phase
  Step-IsFollowing (reads_line l) f = f
  Step-IsFollowing {m} {s} {c} (advances plays errored) f =
      advance-IsFollowing plays errored s c c.phase refl f
  Step-IsFollowing {m} {s} {c} flows f = buffer_flows-IsFollowing c c.phase refl f
