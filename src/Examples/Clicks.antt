-- ===== src/Examples/Clicks.antt =====
-- Clicks of a user on the settings, and the Apply button.
use but_telepresence.Prelude.{true, ◌≡◌, refl, some, List, [], ◌∷◌, arith}
use but_telepresence.Prelude.Int.{pos, ◌+ℤ◌, ◌-ℤ◌}
use but_telepresence.Prelude.Text.{str_eq}
use but_telepresence.Headset.Enums.{Codec, ConnectionStatus}
use but_telepresence.Headset.Config.{StreamingConfig, default_config}
use but_telepresence.Headset.Resolution.{from_index, fhd}
use but_telepresence.Headset.Rest.{no_reply, status, update_streaming_config}
use but_telepresence.Headset.Settings.{
  Setting, Click, increment, decrement, click, clicks, Applied, apply, next_codec, previous_codec,
}
use but_telepresence.Prelude.Text.{codes}
use but_telepresence.Headset.Highlight.Octets.{text_before}
use but_telepresence.Headset.Highlight.Edited.{Marks, Leaves, click-focusable_text_ip}
use but_telepresence.Headset.Settings.Bounds.{IsUsable, clicks-IsUsable}
use but_telepresence.Headset.Settings.Apply.{failed_apply_lem, apply_again}
use but_telepresence.Headset.Session.Applies.{
  Attempts, IsAcknowledged, attempts, last_config, ShowsConfig, attempts-initialize_streaming,
}
use but_telepresence.Headset.Session.{initialize_streaming}
use but_telepresence.Link.{received}
use but_telepresence.Link.Receiving.{AreReceived, received-AreReceived}
use but_telepresence.Headset.Receiver.{configure_pipelines, Decoder}
use but_telepresence.Headset.Settings.Playing.{IsReady, usable-configured_for}

pub default-IsUsable : IsUsable default_config
unfolding default_config from_index fhd
default-IsUsable = record {
  codec = tt;
  encoding_quality = (omega arith, omega arith);
  bitrate = (omega arith, omega arith);
  video_mode = tt;
  fps = (omega arith, omega arith);
  resolution = (5, omega arith, refl);
  address = (refl, (omega arith, (omega arith, (omega arith, (omega arith, tt)))));
}

abbrev session : List Click
session =
    increment Setting.codec
    ∷ increment Setting.resolution
    ∷ decrement Setting.fps
    ∷ increment (Setting.telepresence_ip 3)
    ∷ []

clicks-IsUsable_example :
    (d : StreamingConfig) × (clicks session default_config ≡ some d) × IsUsable d
clicks-IsUsable_example =
    clicks-IsUsable session default_config (tt, (tt, (tt, (omega arith, tt)))) default-IsUsable

codecs_skip_vp : (next_codec Codec.jpeg ≡ Codec.h264) × (previous_codec Codec.h264 ≡ Codec.jpeg)
unfolding next_codec previous_codec ◌+ℤ◌ ◌-ℤ◌
codecs_skip_vp = (refl, refl)

received-AreReceived_example :
    AreReceived
      (λ factory. pos 26)
      (received default_config)
      (configure_pipelines true true default_config)
received-AreReceived_example =
    received-AreReceived (λ factory. pos 26) default_config refl default-IsUsable

abbrev in_step : Applied
in_step = record {
  last_applied = some default_config;
  camera_server = ConnectionStatus.connected;
  built_for = some default_config;
}

abbrev faster : StreamingConfig
faster = record default_config { fps = pos 72 }

abbrev good : Decoder
good = record { prepared = true; parses = true }

good-IsReady : IsReady good
good-IsReady = record { prepared = refl; parses = refl }

faster-IsUsable : IsUsable faster
unfolding default_config from_index fhd
faster-IsUsable = record {
  codec = tt;
  encoding_quality = (omega arith, omega arith);
  bitrate = (omega arith, omega arith);
  video_mode = tt;
  fps = (omega arith, omega arith);
  resolution = (5, omega arith, refl);
  address = (refl, (omega arith, (omega arith, (omega arith, (omega arith, tt)))));
}

failed_apply_lem_example :
    apply_again good (status (pos 200)) default_config (apply good no_reply faster in_step)
    ≡ some (record {
      last_applied = some default_config;
      camera_server = ConnectionStatus.connected;
      built_for = some faster;
    })
unfolding update_streaming_config default_config str_eq fhd
failed_apply_lem_example =
    failed_apply_lem good good default_config faster no_reply (status (pos 200)) in_step refl refl
      (usable-configured_for good faster (some default_config) good-IsReady faster-IsUsable) refl
      refl

-- The robot refuses the first press of Apply with a faster stream.
abbrev two_presses : Attempts
two_presses = record { config = faster; earlier = no_reply ∷ []; reply = status (pos 200) }

two_presses-IsAcknowledged : IsAcknowledged two_presses
unfolding update_streaming_config default_config str_eq fhd
two_presses-IsAcknowledged = record { usable = faster-IsUsable; acknowledged = refl }

attempts-initialize_streaming_example :
    ShowsConfig
      (last_config default_config (two_presses ∷ []))
      (attempts good (two_presses ∷ []) (initialize_streaming good no_reply default_config))
attempts-initialize_streaming_example =
    attempts-initialize_streaming good good-IsReady no_reply default_config (two_presses ∷ [])
      default-IsUsable (two_presses-IsAcknowledged, tt)

click-focusable_text_ip_example :
    Marks 0 10 (text_before (codes "Telepresence IP: ") 0 default_config.jetson_ip) default_config
    × Leaves
        (Marks 0 11 (text_before (codes "Telepresence IP: ") 0 default_config.jetson_ip))
        (click (increment (Setting.telepresence_ip 0)) default_config)
    × Leaves
        (Marks 0 9 (text_before (codes "Telepresence IP: ") 0 default_config.jetson_ip))
        (click (decrement (Setting.telepresence_ip 0)) default_config)
click-focusable_text_ip_example =
    click-focusable_text_ip default_config 0 10 default-IsUsable.address
      (unfold default_config in refl)
