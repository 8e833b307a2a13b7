-- ===== src/Headset/Settings/Playing.antt =====
-- A usable configuration and configurePipelines of VR_App/src/gstreamer_player.cpp.
use but_telepresence.Prelude.{
  All, All-get_elem?, ◌≡◌, refl, true, Option, some, ◌&&◌, Bool-cases, inl, inr,
}
use but_telepresence.Prelude.Int.{pos, ltb_ℤ}
use but_telepresence.Headset.Enums.{Codec}
use but_telepresence.Headset.Config.{StreamingConfig}
use but_telepresence.Headset.Resolution.{CameraResolution, get_list, from_index}
use but_telepresence.Headset.Settings.Steps.{IsOffered}
use but_telepresence.Headset.Settings.Bounds.{IsUsable}
use but_telepresence.Headset.Receiver.{Decoder, configure_pipelines, configured_for, has_size}

HasSize : CameraResolution → Type 0
HasSize r = (ltb_ℤ (pos 0) r.width && ltb_ℤ (pos 0) r.height) ≡ true

sizes : All HasSize get_list
unfolding get_list HasSize
sizes = (refl, (refl, (refl, (refl, (refl, (refl, (refl, (refl, (refl, (refl, tt))))))))))

pub usable-has_size : (c : StreamingConfig) → IsUsable c → has_size c ≡ true
unfolding from_index HasSize
usable-has_size c v =
    All-get_elem? HasSize get_list v.resolution.0 c.resolution sizes v.resolution.2

-- GStreamer makes the pipelines, and the context and the frames are there.
pub record IsReady (d : Decoder) : Type 0 where
  pub prepared : d.prepared ≡ true
  pub parses : d.parses ≡ true

offered-configured_for :
    (d : Decoder) (c : StreamingConfig) (k : Codec) (built_for : Option StreamingConfig)
    → IsReady d
    → has_size c ≡ true
    → IsOffered k
    → configured_for d (record c { codec = k }) built_for ≡ some (some (record c { codec = k }))
unfolding configure_pipelines
offered-configured_for d c Codec.jpeg b r z k =
    rw (r.prepared, configure_pipelines) (rw (r.parses, z, configure_pipelines) refl)
offered-configured_for d c Codec.h264 b r z k =
    rw (r.prepared, configure_pipelines) (rw (r.parses, z, configure_pipelines) refl)
offered-configured_for d c Codec.h265 b r z k =
    rw (r.prepared, configure_pipelines) (rw (r.parses, z, configure_pipelines) refl)
offered-configured_for d c Codec.vp8 b r z k = absurd k
offered-configured_for d c Codec.vp9 b r z k = absurd k
offered-configured_for d c Codec.count b r z k = absurd k
offered-configured_for d c (Codec.other n) b r z k = absurd k

-- A usable configuration is played when GStreamer is ready.
pub usable-configured_for :
    (d : Decoder) (c : StreamingConfig) (built_for : Option StreamingConfig)
    → IsReady d
    → IsUsable c
    → configured_for d c built_for ≡ some (some c)
usable-configured_for d c b r u =
    offered-configured_for d c c.codec b r (usable-has_size c u) u.codec

-- Where the pipelines are made, a usable configuration never makes configurePipelines throw.
pub usable-returns :
    (d : Decoder) (c : StreamingConfig) (built_for : Option StreamingConfig)
    → d.parses ≡ true
    → IsUsable c
    → (b : Option StreamingConfig) × (configured_for d c built_for ≡ some b)
unfolding configure_pipelines
usable-returns d c built_for p u = elim (Bool-cases d.prepared) [
  | inl r ↦ (some c, usable-configured_for d c built_for (record { prepared = r; parses = p }) u)
  | inr r ↦ (built_for, rw (r, configure_pipelines) refl)
]
