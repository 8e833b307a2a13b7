-- ===== src/Link/Offered.antt =====
-- What the settings of the headset offer, the driver can stream.
use but_telepresence.Prelude.{◌≢◌, subst, sym, Option, none, some}
use but_telepresence.Headset.Enums.{Codec}
use but_telepresence.Headset.Config.{StreamingConfig}
use but_telepresence.Headset.Settings.Steps.{IsOffered}
use but_telepresence.Headset.Settings.Bounds.{IsUsable}
use but_telepresence.Driver.Config as DriverConfig
use but_telepresence.Driver.Elements.{get_encoder_tail_description, encoder_tail_for}
use but_telepresence.Link.{received}
use but_telepresence.Link.Delivery.{received_lem, map_config, codec_meant}

-- The driver accepts a configuration and has an encoder tail for it.
abbrev pub IsStreamable : Option DriverConfig.StreamingConfig → Type 0
IsStreamable none = ⊥
IsStreamable (some d) = get_encoder_tail_description d ≢ none

offered-IsStreamable :
    (c : StreamingConfig) (k : Codec) → IsOffered k → IsStreamable (map_config c (codec_meant k))
unfolding get_encoder_tail_description encoder_tail_for
offered-IsStreamable c Codec.jpeg h = λ e. cc
offered-IsStreamable c Codec.h264 h = λ e. cc
offered-IsStreamable c Codec.h265 h = λ e. cc
offered-IsStreamable c Codec.vp8 h = absurd h
offered-IsStreamable c Codec.vp9 h = absurd h
offered-IsStreamable c Codec.count h = absurd h
offered-IsStreamable c (Codec.other n) h = absurd h

-- A usable configuration of the headset is one that the driver accepts and has an encoder tail for,
-- so the clicks of a user never bring a codec that the driver cannot encode.
pub received-IsStreamable : (c : StreamingConfig) → IsUsable c → IsStreamable (received c)
received-IsStreamable c v =
    subst IsStreamable (sym (received_lem c)) (offered-IsStreamable c c.codec v.codec)
