-- ===== src/Examples/Messages.antt =====
-- Packets of the ROS gateway (VR_App/src/ros_network_gateway_client.cpp) and events of the OpenXR
-- session (VR_App/src/util_openxr.cpp).
use but_telepresence.Prelude.{
  if◌then◌else◌, Bool, true, none, ℕ, ◌≡◌, refl, false, some, List, [], ◌∷◌, arith,
}
use but_telepresence.Prelude.Text.{codes, str_eq}
use but_telepresence.Headset.Enums.{ConnectionStatus}
use but_telepresence.Headset.Ntp.{Timer}
use but_telepresence.Headset.Gateway.{
  Message, parse_message, parse_texts, until_null, JsonLibrary, handle_packet, parsed,
  build_parsed_message,
}
use but_telepresence.Headset.Packet.{serialize_little_endian}
use but_telepresence.Headset.Packet.Decode.{read_number}
use but_telepresence.Headset.Gateway.Schemas.{
  handle_packets, schema_of, schema_in, last_schema, answer, handle_packet-handle_packets,
}
use but_telepresence.Headset.Gateway.RoundTrip.{
  IsMessage, has_no_null, frame_message, parse_message-frame_message,
}
use but_telepresence.Headset.Session.{
  SessionState, Event, session_state_changed, other, Session, NtpStatus, begin_session, end_session,
  frame, update_frame, poll_events, poll_from, handle_session_state_changed,
}
use but_telepresence.Headset.Session.Calls.{update_frames}
use but_telepresence.Headset.Frame.{all_calls}
use but_telepresence.Headset.Frame.Order.{accept_all}
use but_telepresence.Headset.Frame.Protocol.{Conforms, AreFramesExpected, update_frames-Conforms}
use but_telepresence.Examples.Clocks.{fresh}

abbrev clock : Message
clock = record {
  timestamp = 4742290407621132288;
  compressed = false;
  topic = codes "/loki_1/chassis/clock";
  type_name = codes "rosgraph_msgs/Clock";
  payload = codes "{\"clock\":[]}";
}

clock-IsMessage : IsMessage clock
unfolding has_no_null
clock-IsMessage = record {
  timestamp = omega arith;
  topic = refl;
  type_name = refl;
  long_enough = omega arith;
}

parse_message-frame_message_example : parse_message (frame_message clock) ≡ some clock
parse_message-frame_message_example = parse_message-frame_message clock clock-IsMessage

-- A JSON library with two texts, one of them a schema.
abbrev two_texts : JsonLibrary Bool
two_texts = record {
  parse = λ text.
      if str_eq text (codes "schema")
      then some true
      else if str_eq text (codes "data")
      then some false
      else none;
  contains = λ j key. j;
  member = λ j key. none;
  elements = λ j. none;
  field_names = λ j. some [];
  map_items = λ f j. f j;
}

abbrev clock_schema : Message
clock_schema = record clock { payload = codes "schema" }

abbrev clock_data : Message
clock_data = record clock { payload = codes "data" }

abbrev gateway_packets : List (List ℕ)
gateway_packets = frame_message clock_schema ∷ (1 ∷ 2 ∷ []) ∷ frame_message clock ∷ []

clock_data_parsed : parse_message (frame_message clock_data) ≡ some clock_data
unfolding has_no_null
clock_data_parsed =
    parse_message-frame_message clock_data (record {
      timestamp = omega arith;
      topic = refl;
      type_name = refl;
      long_enough = omega arith;
    })

handle_packet-handle_packets_example :
    handle_packet two_texts (frame_message clock_data) (handle_packets two_texts gateway_packets [])
    ≡ (
      answer two_texts (last_schema two_texts clock.type_name gateway_packets) (codes "data"),
      handle_packets two_texts gateway_packets [],
    )
unfolding schema_of str_eq
handle_packet-handle_packets_example =
    handle_packet-handle_packets two_texts gateway_packets (frame_message clock_data) clock_data
      clock_data_parsed refl refl

clock_data_answered :
    answer two_texts (last_schema two_texts clock.type_name gateway_packets) (codes "data")
    ≡ parsed false
unfolding last_schema schema_in schema_of parse_message parse_texts until_null str_eq read_number
    frame_message build_parsed_message serialize_little_endian
clock_data_answered = refl

abbrev no_session : Session
no_session = record {
  session = 1;
  session_state = SessionState.unknown;
  session_running = false;
  mounted = false;
  calls = [];
}

abbrev no_status : NtpStatus
no_status = record { ntp_sync = ConnectionStatus.unknown; text = codes "Unknown" }

-- The session becomes ready, a frame passes, and the session stops.
abbrev three_frames : List (Timer × (ℕ × List Event))
three_frames =
    (fresh, (10, session_state_changed 1 SessionState.ready ∷ []))
    ∷ (fresh, (20, other ∷ session_state_changed 2 SessionState.stopping ∷ []))
    ∷ (fresh, (30, session_state_changed 1 SessionState.stopping ∷ []))
    ∷ []

three_frames_called :
    (update_frames three_frames (no_session, no_status)).0.calls
    ≡ end_session ∷ frame ∷ frame ∷ begin_session ∷ []
unfolding update_frames update_frame poll_events poll_from handle_session_state_changed
three_frames_called = refl

-- When the runtime closes the program or loses the session, the frames go on.
abbrev closing : List (Timer × (ℕ × List Event))
closing =
    (fresh, (10, session_state_changed 1 SessionState.ready ∷ []))
    ∷ (fresh, (20, session_state_changed 1 SessionState.loss_pending ∷ []))
    ∷ []

closing_called :
    (update_frames closing (no_session, no_status)).0.calls ≡ frame ∷ frame ∷ begin_session ∷ []
unfolding update_frames update_frame poll_events poll_from handle_session_state_changed
closing_called = refl

three_frames-AreFramesExpected : AreFramesExpected three_frames (no_session, no_status)
unfolding update_frame poll_events poll_from handle_session_state_changed
three_frames-AreFramesExpected = ((refl, tt), ((tt, (refl, tt)), ((refl, tt), tt)))

no_session-Conforms : Conforms 2 no_session
unfolding accept_all all_calls
no_session-Conforms = record { conforms = refl }

update_frames-Conforms_example : Conforms 2 (update_frames three_frames (no_session, no_status)).0
update_frames-Conforms_example =
    update_frames-Conforms 2 three_frames no_session no_status three_frames-AreFramesExpected
      no_session-Conforms
