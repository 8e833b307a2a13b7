-- ===== src/Headset/Rest.antt =====
-- VR_App/src/rest_client.cpp: the requests to the camera server and the reading of its replies.
-- The HTTP library is a parameter: what `client->Post` or `client->Put` returned.
-- `config_` is a reference to the configuration of the application, so it is an argument.
use but_telepresence.Prelude.{if◌then◌else◌}
use but_telepresence.Prelude.Int.{ℤ, pos, negsuc, int_eq}
use but_telepresence.Prelude.Text.{Str}
use but_telepresence.Headset.Enums.{codec_to_string, video_mode_to_api_string}
use but_telepresence.Headset.Config.{StreamingConfig}
use but_telepresence.Headset.Address.{ip_to_string}

-- The JSON object of a start or update request, a field for each key.
pub record RequestBody : Type 0 where
  pub bitrate : ℤ
  pub codec : Str
  pub encoding_quality : ℤ
  pub fps : ℤ
  pub ip_address : Str
  pub port_left : ℤ
  pub port_right : ℤ
  pub resolution_height : ℤ
  pub resolution_width : ℤ
  pub video_mode : Str

-- The object that StartStream sends, and UpdateStreamingConfig for `config`: the address of the
-- headset is taken from `config_` in both.
unfoldable pub request_body : (config_ config : StreamingConfig) → RequestBody
request_body config_ config = record {
  bitrate = config.bitrate;
  codec = codec_to_string config.codec;
  encoding_quality = config.encoding_quality;
  fps = config.fps;
  ip_address = ip_to_string config_.headset_ip;
  port_left = config.port_left;
  port_right = config.port_right;
  resolution_height = config.resolution.height;
  resolution_width = config.resolution.width;
  video_mode = video_mode_to_api_string config.video_mode;
}

-- A reply of the HTTP library: none at all, or one with a status.
pub data Reply : Type 0 where
  no_reply : Reply
  status : ℤ → Reply

abbrev result_of : Reply → ℤ
result_of no_reply = negsuc 0
result_of (status s) = if int_eq s (pos 200) then pos 0 else negsuc 0

-- The result of StartStream and of StopStream.
unfoldable pub start_stream : Reply → ℤ
start_stream r = result_of r

unfoldable pub stop_stream : Reply → ℤ
stop_stream r = result_of r

-- The result of UpdateStreamingConfig, and `config_` after it.
unfoldable pub update_streaming_config :
    (config_ config : StreamingConfig) → Reply → ℤ × StreamingConfig
update_streaming_config config_ config no_reply = (negsuc 0, config_)
update_streaming_config config_ config (status s) =
    if int_eq s (pos 200) then (pos 0, config) else (negsuc 0, config_)
