-- ===== src/Driver/Camera/Arriving.antt =====
-- A camera thread of streaming_driver/main.cpp on the way to the pipeline of the published
-- configuration, with its quality and its bitrate.
use but_telepresence.Prelude.{
  ℕ, ◌≡◌, refl, sym, ◌∙◌, subst, ap, Bool, true, false, List, [], ◌∷◌, arith, ◌⊎◌, inl, inr,
  Bool-cases, Option-cases, if◌then◌else◌, ◌==◌, All,
}
use but_telepresence.Prelude.Int.{ℤ}
use but_telepresence.Driver.Config.{StreamingConfig, can_update_dynamically}
use but_telepresence.Driver.Pipeline.{Gst, build_camera_pipeline}
use but_telepresence.Driver.Pipeline.Shape.{Works}
use but_telepresence.Driver.Pipeline.Leading.{Leads, built-Leads}
use but_telepresence.Driver.Pipeline.Draining.{drain, swap-Leads, drain-Leads}
use but_telepresence.Driver.Camera.{
  Shared, Running, Phase, Camera, advance, read_config, wake, start_pipeline, poll, apply_config,
  stop_pipeline, buffer_flows,
}
use but_telepresence.Driver.Camera.Pieces.{Knows, IsCurrent, advance-IsCurrent}
use but_telepresence.Driver.Camera.Updates.{flows-IsCurrent}
use but_telepresence.Driver.Camera.Following.{
  updated_running, SwapKeeps, run_swap-keeps, updated-Leads,
}
use but_telepresence.Driver.Camera.Going.{IsSupported}
use but_telepresence.Driver.Camera.Stops.{Answers, turn, turns}

-- The pipeline with its swaps leads to that of the configuration; either with the quality and the
-- bitrate that are wanted, or an update is still to come and no swap waits.
pub record Arrives (wanted : StreamingConfig) (sensor_id : ℤ) (cfg : StreamingConfig) (seen : Bool)
    (r : Running) : Type 0 where
  pub quality : ℤ
  pub bitrate : ℤ
  pub leads : Leads sensor_id cfg quality bitrate r.pipeline r.swaps
  pub due :
      ((r.swaps ≡ []) × (seen ≡ false))
      ⊎ ((quality ≡ wanted.encoding_quality) × (bitrate ≡ wanted.bitrate))

abbrev pub IsArriving : Shared → Camera → Phase → Type 0
IsArriving s c (Phase.streaming r) =
    Arrives s.desired c.sensor_id c.current_config (s.version == c.seen_version) r
IsArriving s c (Phase.noticed r errored v) = Arrives s.desired c.sensor_id c.current_config false r
IsArriving s c _ = Unit {0}

-- The pipeline is the one of the recorded configuration once the swaps that wait have run.
abbrev pub Builds : Gst → Camera → Phase → Type 0
Builds g c (Phase.streaming r) =
    drain g r.pipeline r.swaps ≡ build_camera_pipeline g c.sensor_id c.current_config
Builds g c _ = ⊥

module _ (g : Gst) (w : Works g) (s : Shared) where
  to_come :
      (sensor_id : ℤ) (cfg : StreamingConfig) (seen : Bool) (r : Running)
      → Arrives s.desired sensor_id cfg seen r
      → Arrives s.desired sensor_id cfg false r
  to_come sensor_id cfg seen r a = record {
    quality = a.quality;
    bitrate = a.bitrate;
    leads = a.leads;
    due = elim a.due [ inl d ↦ inl (d.0, refl) | inr d ↦ inr d ];
  }

  updated-Arrives :
      (sensor_id : ℤ) (cfg : StreamingConfig) (seen : Bool) (r : Running)
      → can_update_dynamically cfg s.desired ≡ true
      → Arrives s.desired sensor_id cfg false r
      → Arrives s.desired sensor_id s.desired seen (updated_running g r cfg s.desired)
  updated-Arrives sensor_id cfg seen r h a =
      elim (updated-Leads g w sensor_id cfg s.desired a.quality a.bitrate r h a.leads) [
        | inl l ↦ record {
          quality = s.desired.encoding_quality;
          bitrate = s.desired.bitrate;
          leads = l;
          due = inr (refl, refl);
        }
        | inr l ↦ record {
          quality = a.quality;
          bitrate = a.bitrate;
          leads = l.1;
          due = elim a.due [ inl d ↦ absurd (l.0 d.0) | inr d ↦ inr d ];
        }
      ]

  swap-Arrives :
      (sensor_id : ℤ) (cfg : StreamingConfig) (seen : Bool) (r : Running) (x : StreamingConfig)
      (swaps : List StreamingConfig)
      → r.swaps ≡ x ∷ swaps
      → Arrives s.desired sensor_id cfg seen r
      → SwapKeeps g (Arrives s.desired sensor_id cfg seen) r x swaps
  swap-Arrives sensor_id cfg seen r x swaps e a =
      elim (swap-Leads g w sensor_id cfg x a.quality a.bitrate r.pipeline swaps
        (subst (Leads sensor_id cfg a.quality a.bitrate r.pipeline) e a.leads)) [
          | inl u ↦ inl u.1
          | inr (p, k, u, l) ↦ inr (
            p,
            k,
            u,
            record {
              quality = a.quality;
              bitrate = a.bitrate;
              leads = l;
              due = elim a.due [ inl d ↦ absurd (waits (sym e ∙ d.0)) | inr d ↦ inr d ];
            },
          )
        ]
    where
      waits : x ∷ swaps ≡ [] → ⊥
      waits q = cc

  start_pipeline-IsArriving :
      (plays : Bool) (cfg : StreamingConfig) (c : Camera)
      → Knows s c (Phase.building cfg)
      → IsArriving s (start_pipeline g plays cfg c) (start_pipeline g plays cfg c).phase
  unfolding start_pipeline
  start_pipeline-IsArriving plays cfg c k =
      elim (Option-cases (build_camera_pipeline g c.sensor_id cfg)) [
        | inl e ↦ rw (e, start_pipeline) tt
        | inr (p, e) ↦
            let f : Arrives s.desired c.sensor_id cfg (s.version == c.seen_version)
                (record { pipeline = p; swaps = [] }) =
              record {
                quality = cfg.encoding_quality;
                bitrate = cfg.bitrate;
                leads = built-Leads g w c.sensor_id cfg p e;
                due = elim (Bool-cases (s.version == c.seen_version)) [
                  | inl b ↦
                      let d = k.1 (ground (arith, b)) in
                      inr (ap (λ x. x.encoding_quality) d, ap (λ x. x.bitrate) d)
                  | inr b ↦ inl (refl, b)
                ];
              } in
            rw (e, start_pipeline) (ground (arith, f))
      ]

  apply_config-IsArriving :
      (r : Running) (errored : Bool) (v : ℕ) (c : Camera)
      → Arrives s.desired c.sensor_id c.current_config false r
      → IsArriving s (apply_config g s r errored v c) (apply_config g s r errored v c).phase
  unfolding apply_config
  apply_config-IsArriving r errored v c a =
      elim (Bool-cases (can_update_dynamically c.current_config s.desired)) [
        | inl h ↦
            let u = updated-Arrives c.sensor_id c.current_config (s.version == v) r h a in
            ground (arith, u)
        | inr h ↦ ground (arith, h)
      ]

  poll-IsArriving :
      (errored : Bool) (r : Running) (c : Camera)
      → Arrives s.desired c.sensor_id c.current_config (s.version == c.seen_version) r
      → IsArriving s (poll s errored r c) (poll s errored r c).phase
  unfolding poll
  poll-IsArriving errored r c a =
      let b = to_come c.sensor_id c.current_config (s.version == c.seen_version) r a in
      ground (arith, a, b)

  advance-IsArriving :
      (plays errored : Bool) (c : Camera) (p : Phase)
      → c.phase ≡ p
      → Knows s c p
      → IsArriving s c p
      → IsArriving s (advance g plays errored s c) (advance g plays errored s c).phase
  unfolding advance read_config wake stop_pipeline
  advance-IsArriving plays errored c (Phase.building cfg) e k a =
      rw (e, advance) (start_pipeline-IsArriving plays cfg c k)
  advance-IsArriving plays errored c (Phase.streaming r) e k a =
      rw (e, advance) (poll-IsArriving errored r c a)
  advance-IsArriving plays errored c (Phase.noticed r b v) e k a =
      rw (e, advance) (apply_config-IsArriving r b v c a)
  advance-IsArriving plays errored c Phase.finished e k a = rw (e, advance) (rw e tt)
  advance-IsArriving plays errored c Phase.crashed e k a = rw (e, advance) (rw e tt)
  advance-IsArriving plays errored c _ e k a = rw (e, advance) (ground arith)

  buffer_flows-IsArriving :
      (c : Camera) (p : Phase)
      → c.phase ≡ p
      → IsArriving s c p
      → IsArriving s (buffer_flows g c) (buffer_flows g c).phase
  unfolding buffer_flows
  buffer_flows-IsArriving c (Phase.streaming r) e a =
      rw (e, buffer_flows)
        (run_swap-keeps g Phase.streaming (IsArriving s c)
          (Arrives s.desired c.sensor_id c.current_config (s.version == c.seen_version)) tt
          (λ q i. i) (swap-Arrives c.sensor_id c.current_config (s.version == c.seen_version)) r
          r.swaps refl a)
  buffer_flows-IsArriving c (Phase.noticed r b v) e a =
      rw (e, buffer_flows)
        (run_swap-keeps g (λ q. Phase.noticed q b v) (IsArriving s c)
          (Arrives s.desired c.sensor_id c.current_config false) tt (λ q i. i)
          (swap-Arrives c.sensor_id c.current_config false) r r.swaps refl a)
  buffer_flows-IsArriving c _ e a = rw (e, buffer_flows) (rw e tt)

  turn-IsArriving :
      (n : ℕ) (a : Answers) (c : Camera)
      → IsCurrent n s c
      → IsArriving s c c.phase
      → IsCurrent n s (turn g a s c) × IsArriving s (turn g a s c) (turn g a s c).phase
  turn-IsArriving n a c v i = go a.flows
    where
      at :
          (d : Camera)
          → IsCurrent n s d
          → IsArriving s d d.phase
          → IsCurrent n s (advance g a.plays a.errored s d)
            × IsArriving s (advance g a.plays a.errored s d) (advance g a.plays a.errored s d).phase
      at d u j = (
        advance-IsCurrent g a.plays a.errored n s d d.phase refl u u.knows,
        advance-IsArriving a.plays a.errored d d.phase refl u.knows j,
      )

      go :
          (b : Bool)
          → IsCurrent n s (advance g a.plays a.errored s (if b then buffer_flows g c else c))
            × IsArriving s
                (advance g a.plays a.errored s (if b then buffer_flows g c else c))
                (advance g a.plays a.errored s (if b then buffer_flows g c else c)).phase
      go true =
          at (buffer_flows g c) (flows-IsCurrent g n s c c.phase refl v v.knows)
            (buffer_flows-IsArriving c c.phase refl i)
      go false = at c v i

  pub turns-IsArriving :
      (n : ℕ) (answers : List Answers) (c : Camera)
      → IsCurrent n s c
      → IsArriving s c c.phase
      → IsArriving s (turns g answers s c) (turns g answers s c).phase
  unfolding turns
  turns-IsArriving n [] c v i = i
  turns-IsArriving n (a ∷ answers) c v i =
      let (u, j) = turn-IsArriving n a c v i in turns-IsArriving n answers (turn g a s c) u j

  -- A pipeline that no update is due for is the one of the recorded configuration.
  pub Arrives-Builds :
      (c : Camera) (r : Running)
      → All IsSupported r.swaps
      → Arrives s.desired c.sensor_id c.current_config (s.version == c.seen_version) r
      → c.seen_version ≡ s.version
      → c.current_config ≡ s.desired
      → Builds g c (Phase.streaming r)
  Arrives-Builds c r h a e d = elim a.due [
    | inl x ↦ absurd (seen x.1)
    | inr x ↦
        subst
          (λ q.
            drain g r.pipeline r.swaps
            ≡ build_camera_pipeline g c.sensor_id (record c.current_config {
              encoding_quality = q;
              bitrate = c.current_config.bitrate;
            }))
          (x.0 ∙ sym (ap (λ y. y.encoding_quality) d))
          (subst
            (λ b.
              drain g r.pipeline r.swaps
              ≡ build_camera_pipeline g c.sensor_id
                  (record c.current_config { encoding_quality = a.quality; bitrate = b }))
            (x.1 ∙ sym (ap (λ y. y.bitrate) d))
            (drain-Leads g w c.sensor_id c.current_config a.quality a.bitrate r.pipeline r.swaps h
              a.leads))
  ]
    where
      seen : (s.version == c.seen_version) ≡ false → ⊥
      seen b = ground (arith, b, e)
