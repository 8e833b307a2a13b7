-- ===== src/Headset/Session/Applies.antt =====
-- The Apply button after InitializeStreaming, both of VR_App/src/program.cpp: an Apply that failed is
-- tried again.
use but_telepresence.Prelude.{
  if◌then◌else◌, ◌≡◌, refl, Bool, true, false, Bool-cases, inl, inr, Option, none, some, List, [],
  ◌∷◌, All,
}
use but_telepresence.Prelude.Int.{pos, int_eq}
use but_telepresence.Headset.Config.{StreamingConfig}
use but_telepresence.Headset.Rest.{Reply, update_streaming_config}
use but_telepresence.Headset.Receiver.{Decoder}
use but_telepresence.Headset.Settings.{Applied, apply, push_config, needs_rebuild}
use but_telepresence.Headset.Settings.Bounds.{IsUsable}
use but_telepresence.Headset.Settings.Playing.{IsReady, usable-configured_for}
use but_telepresence.Headset.Settings.Apply.{
  IsInStep, rebuilt-IsInStep, needs_rebuild_refl, SameFormat-refl, apply_again,
}
use but_telepresence.Headset.Session.{initialize_streaming}

-- The presses of Apply with one configuration: the replies of the first ones and of the last.
pub record Attempts : Type 0 where
  pub config : StreamingConfig
  pub earlier : List Reply
  pub reply : Reply

-- The presses one after the other, `none` from the first that throws.
unfoldable pub retries : Decoder → List Reply → StreamingConfig → Option Applied → Option Applied
retries d [] cfg a = a
retries d (r ∷ rs) cfg a = retries d rs cfg (apply_again d r cfg a)

unfoldable pub attempts : Decoder → List Attempts → Option Applied → Option Applied
attempts d [] a = a
attempts d (t ∷ ts) a =
    attempts d ts (apply_again d t.reply t.config (retries d t.earlier t.config a))

unfoldable pub last_config : StreamingConfig → List Attempts → StreamingConfig
last_config c [] = c
last_config c (t ∷ ts) = last_config t.config ts

-- The last press is acknowledged, and the configuration is one that the settings can be brought to.
pub record IsAcknowledged (t : Attempts) : Type 0 where
  pub usable : IsUsable t.config
  pub acknowledged : (update_streaming_config t.config t.config t.reply).0 ≡ pos 0

-- An acknowledged press with this configuration would leave the two ends in step.
abbrev CanFinish : StreamingConfig → Applied → Type 0
CanFinish cfg a =
    IsInStep (if needs_rebuild a.last_applied cfg then some cfg else a.built_for) (some cfg)

twice :
    (b : Bool) (x y : Option StreamingConfig) (l : Option StreamingConfig)
    → IsInStep (if b then x else y) l
    → IsInStep (if b then x else (if b then x else y)) l
twice true x y l h = h
twice false x y l h = h

-- The configuration that the robot has, and the decode pipeline built for its format; nothing threw.
abbrev pub ShowsConfig : StreamingConfig → Option Applied → Type 0
ShowsConfig c none = ⊥
ShowsConfig c (some a) = (a.last_applied ≡ some c) × IsInStep a.built_for a.last_applied

module _ (d : Decoder) (ready : IsReady d) where
  works :
      (r : Reply) (cfg : StreamingConfig) (a : Applied)
      → IsUsable cfg
      → apply d r cfg a
        ≡ some (
            push_config r cfg
              (if needs_rebuild a.last_applied cfg then some cfg else a.built_for)
              a)
  unfolding apply
  works r cfg a u = elim (Bool-cases (needs_rebuild a.last_applied cfg)) [
    | inl n ↦ rw n (rw (usable-configured_for d cfg a.built_for ready u) refl)
    | inr n ↦ rw n refl
  ]

  -- Pressed again, the pipeline is built again or kept.
  CanFinish-push_config :
      (r : Reply) (cfg : StreamingConfig) (a : Applied)
      → CanFinish cfg a
      → CanFinish cfg
          (push_config r cfg (if needs_rebuild a.last_applied cfg then some cfg else a.built_for) a)
  CanFinish-push_config r cfg a h =
      elim (Bool-cases (int_eq (update_streaming_config cfg cfg r).0 (pos 0))) [
        | inl e ↦ rw (e, needs_rebuild_refl cfg) h
        | inr e ↦
            rw e (twice (needs_rebuild a.last_applied cfg) (some cfg) a.built_for (some cfg) h)
      ]

  retries-CanFinish :
      (rs : List Reply) (cfg : StreamingConfig) (a : Applied)
      → IsUsable cfg
      → CanFinish cfg a
      → (b : Applied) × (retries d rs cfg (some a) ≡ some b) × CanFinish cfg b
  unfolding retries apply_again
  retries-CanFinish [] cfg a u h = (a, refl, h)
  retries-CanFinish (r ∷ rs) cfg a u h =
      let (b, e, k) =
        retries-CanFinish rs cfg
          (push_config r cfg (if needs_rebuild a.last_applied cfg then some cfg else a.built_for) a)
          u (CanFinish-push_config r cfg a h) in
      (b, rw (works r cfg a u) e, k)

  finished :
      (r : Reply) (cfg : StreamingConfig) (a : Applied)
      → IsUsable cfg
      → (update_streaming_config cfg cfg r).0 ≡ pos 0
      → CanFinish cfg a
      → ShowsConfig cfg (apply d r cfg a)
  finished r cfg a u e h = rw (works r cfg a u) (rw e (refl, h))

  attempts-ShowsConfig :
      (ts : List Attempts) (c : StreamingConfig) (o : Option Applied)
      → All IsAcknowledged ts
      → ShowsConfig c o
      → ShowsConfig (last_config c ts) (attempts d ts o)
  unfolding attempts last_config apply_again
  attempts-ShowsConfig [] c o k s = s
  attempts-ShowsConfig (t ∷ ts) c none k s = absurd s
  attempts-ShowsConfig (t ∷ ts) c (some a) k s =
      let (b, e, h) =
        retries-CanFinish t.earlier t.config a k.0.usable
          (rebuilt-IsInStep a.built_for a.last_applied t.config s.1) in
      attempts-ShowsConfig ts t.config
        (apply_again d t.reply t.config (retries d t.earlier t.config (some a))) k.1
        (rw e (finished t.reply t.config b k.0.usable k.0.acknowledged h))

  -- After the start of the streaming, whatever StartStream returned, and any presses of Apply in which
  -- a refused configuration is pressed again, unchanged, until the robot acknowledges it, with usable
  -- configurations and while GStreamer is ready: nothing throws, the configuration recorded last is
  -- the last of those, or that of the start, and the decode pipeline is built for a stream of the
  -- same addresses, ports, codec, resolution, video mode and frame rate.
  pub attempts-initialize_streaming :
      (started : Reply) (c : StreamingConfig) (ts : List Attempts)
      → IsUsable c
      → All IsAcknowledged ts
      → ShowsConfig (last_config c ts) (attempts d ts (initialize_streaming d started c))
  unfolding initialize_streaming
  attempts-initialize_streaming started c ts u k =
      attempts-ShowsConfig ts c (initialize_streaming d started c) k
        (rw (usable-configured_for d c none ready u) (refl, SameFormat-refl c))
