-- ===== src/Link.antt =====
-- How a configuration of the headset reaches the driver: the request of VR_App/src/rest_client.cpp,
-- the map of server/swagger_server/controllers/default_controller.py (cfg_dict_from_state), and the
-- reading of it in streaming_driver/main.cpp (ConfigFromJson).
pub mod Delivery
pub mod Lockstep
pub mod Offered
pub mod Receiving
pub mod EndToEnd
pub mod Arrival
use but_telepresence.Prelude.{Option, none, some, if◌then◌else◌}
use but_telepresence.Prelude.Int.{ℤ}
use but_telepresence.Prelude.Text.{Str, codes, str_eq}
use but_telepresence.Headset.Rest.{RequestBody, request_body}
use but_telepresence.Headset.Config as HeadsetConfig
use but_telepresence.Driver.Config as DriverConfig
use but_telepresence.Driver.Config.{JsonObject, config_from_json}

unfoldable pub cfg_dict_from_state : RequestBody → JsonObject
unfolding str_eq
cfg_dict_from_state s = record {
  get_string = λ key.
      if str_eq key (codes "ip")
      then some s.ip_address
      else if str_eq key (codes "codec")
      then some s.codec
      else if str_eq key (codes "videoMode")
      then some s.video_mode
      else none;
  get_int = λ key.
      if str_eq key (codes "portLeft")
      then some s.port_left
      else if str_eq key (codes "portRight")
      then some s.port_right
      else if str_eq key (codes "encodingQuality")
      then some s.encoding_quality
      else if str_eq key (codes "bitrate")
      then some s.bitrate
      else if str_eq key (codes "horizontalResolution")
      then some s.resolution_width
      else if str_eq key (codes "verticalResolution")
      then some s.resolution_height
      else if str_eq key (codes "fps")
      then some s.fps
      else none;
}

-- What the driver reads of the configuration that the headset pushes; `none` where it refuses it.
unfoldable pub received : HeadsetConfig.StreamingConfig → Option DriverConfig.StreamingConfig
unfolding cfg_dict_from_state
received c = config_from_json (cfg_dict_from_state (request_body c c))
