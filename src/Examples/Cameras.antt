-- ===== src/Examples/Cameras.antt =====
-- A camera thread with ControlLoop, and two updates before one buffer.
use but_telepresence.Prelude.{◌≡◌, refl, true, false, some, arith}
use but_telepresence.Prelude.Int.{pos}
use but_telepresence.Prelude.Text.{str_eq}
use but_telepresence.Driver.Config.{
  StreamingConfig, default_streaming_config, can_update_dynamically, config_from_json,
  get_codec_from_string, get_video_mode_from_string,
}
use but_telepresence.Headset.Enums.{codec_to_string, video_mode_to_api_string}
use but_telepresence.Driver.Elements.{get_encoder_tail_description}
use but_telepresence.Driver.Pipeline.{build_camera_pipeline}
use but_telepresence.Driver.Pipeline.Update.{settle}
use but_telepresence.Driver.Pipeline.Overtaken.{overtaken, update_overtaken}
use but_telepresence.Driver.Camera.{
  Shared, Line, Phase, Camera, control_loop, advance, backoff_ms, read_config, start_pipeline,
}
use but_telepresence.Driver.Camera.Pieces.{IsCurrent}
use but_telepresence.Driver.Camera.Updates.{Step, Reach}
use but_telepresence.Driver.Camera.Showing.{IsUpToDate, Reach-IsUpToDate}
use but_telepresence.Headset.Rest.{request_body}
use but_telepresence.Link.{cfg_dict_from_state}
use but_telepresence.Examples.Streaming.{
  h264_config, all_works, slower_jpeg, running, running_built, all_works-Works, pushed,
}

abbrev slow_h264 : StreamingConfig
slow_h264 = record slower_jpeg { bitrate = pos 1000000; encoding_quality = pos 20 }

update_overtaken_example :
    ((overtaken all_works running h264_config slower_jpeg slow_h264).success ≡ true)
    × (settle all_works (overtaken all_works running h264_config slower_jpeg slow_h264)
        ≡ build_camera_pipeline all_works (pos 0) (record slower_jpeg { fps = slow_h264.fps }))
unfolding can_update_dynamically get_encoder_tail_description str_eq
update_overtaken_example =
    update_overtaken all_works (pos 0) h264_config slower_jpeg slow_h264 running all_works-Works
      running_built refl refl refl (λ e. cc)

abbrev shared_0 : Shared
shared_0 = record { desired = default_streaming_config; version = 0; stop_requested = false }

abbrev pub camera_0 : Camera
camera_0 = record {
  sensor_id = pos 0;
  seen_version = 0;
  consecutive_failures = 0;
  current_config = default_streaming_config;
  slept_ms = 0;
  phase = Phase.head;
}

camera_0-IsCurrent : IsCurrent 0 shared_0 camera_0
camera_0-IsCurrent = record {
  version = omega arith;
  seen = omega arith;
  failures = omega arith;
  knows = tt;
}

abbrev line : Line
line = Line.update (some (cfg_dict_from_state (request_body pushed pushed)))

abbrev shared_1 : Shared
shared_1 = control_loop line shared_0

-- The configuration is read, and the pipeline is built and started.
abbrev camera_2 : Camera
camera_2 = advance all_works true false shared_1 (advance all_works true false shared_1 camera_0)

camera_2-Reach : Reach all_works 0 shared_0 camera_0 1 shared_1 camera_2
camera_2-Reach =
    Reach.next
      (Reach.next (Reach.next Reach.here (Step.reads_line line)) (Step.advances true false))
      (Step.advances true false)

Reach-IsUpToDate_example : IsUpToDate all_works 1 shared_1 camera_2
Reach-IsUpToDate_example =
    Reach-IsUpToDate all_works all_works-Works camera_2-Reach (omega arith) camera_0-IsCurrent tt

camera_2_streams : camera_2.seen_version ≡ 1
unfolding advance read_config control_loop cfg_dict_from_state config_from_json request_body
    start_pipeline build_camera_pipeline get_encoder_tail_description str_eq get_codec_from_string
    codec_to_string get_video_mode_from_string video_mode_to_api_string
camera_2_streams = refl

delays : (backoff_ms 1 ≡ 200) × ((backoff_ms 4 ≡ 1600) × (backoff_ms 5 ≡ 10000))
unfolding backoff_ms
delays = (refl, (refl, refl))
