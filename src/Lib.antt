-- ===== src/Lib.antt =====
-- BUT_Telepresence: the headset application (VR_App), the camera streaming driver of the robot
-- (streaming_driver) and the link between them.
--
-- The headset shows the camera streams of a robot. It keeps a streaming configuration, which the
-- user edits, pushes it to a camera server by REST, and decodes the streams that come back; it also
-- sends the head pose, the motion commands and its measurements to the robot by UDP. The server
-- hands a pushed configuration to the driver as a line of JSON. The driver owns a GStreamer
-- pipeline for each camera: it applies a new configuration to the running pipeline where it can,
-- and else builds the pipeline again. In panoramic mode it keeps three of six cameras open, and a
-- datagram selects the one to show.
--
-- The files:
--   Prelude    Boolean tests, integers, machine words, texts and decimal numbers.
--   Pts        the class PtsTimestampMap (VR_App/include/types/camera_types.h and
--              streaming_driver/include/logging.h); Pts/Laws its laws.
--   Headset    the application, in VR_App: Enums (include/types/enums.h), Resolution and Snapshot
--              (include/types/camera_types.h), Config (include/types/app_state.h), Address
--              (include/utils/network_utils.h), Rest (src/rest_client.cpp), Packet and Sender
--              (src/robot_control_sender.cpp and SendControllerDatagram of src/program.cpp).
--              Packet/Decode has a receiver, Sender/Counters the counters against the history of
--              sends, Sender/Status the connection status over the interleavings of frames and pool
--              tasks. Ntp (src/ntp_timer.cpp): Ntp/Sample the quality of a sample, Ntp/Cycle a sync
--              cycle. Settings (BuildSettings of src/program.cpp): the clicks on the streaming
--              settings and the Apply button; Settings/Steps and Settings/Bounds the ranges that
--              clicks keep, Settings/Playing what configurePipelines makes of a configuration in range,
--              Settings/Apply the two ends of an Apply. Storage
--              (src/state_storage.cpp) is the saved part of AppState: Storage/Values what the
--              preferences hold, Storage/Load what a load leaves, Storage/RoundTrip a load after a
--              save. Table has the rows of the settings table and Table/Sound the ranges that they
--              keep. Controls (HandleControllers of src/program.cpp) and Panel (render_settings_gui
--              of src/render_imgui.cpp, and the eyes of RenderLayer): Panel/Focus the focus,
--              Panel/Sessions and Panel/Edges sequences of eyes. Highlight (focusable_text_ip
--              there) is the octet that is marked, with Highlight/Octets and Highlight/Edited.
--              Stats (src/camera_stats.cpp), with Stats/History, Probes (the latency callbacks of
--              src/gstreamer_player.cpp), with Probes/Arrival, Probes/Stages and Probes/Total for
--              one frame, and Frames (newFrameCallback and oesBlitOnGstGlThread there), with
--              Frames/Shown. Drawing (draw_image_plane of src/render_scene.cpp) is what is drawn of
--              them, with Drawing/Textures for the textures that are drawn. Gateway
--              (src/ros_network_gateway_client.cpp and its header) reads the messages of ROS, with
--              Gateway/RoundTrip, and Gateway/Schemas for sequences of packets; Session (the events
--              in src/util_openxr.cpp, and UpdateFrame and InitializeStreaming of src/program.cpp)
--              is the frame loop, with Session/Calls, and Session/Applies for Apply after the
--              start. Frame has the calls of the OpenXR runtime behind a frame (RenderFrame,
--              PollPoses and RenderLayer of src/program.cpp), and Frame/Order the order of calls
--              that the OpenXR specification asks for, with Frame/Protocol. Receiver
--              (configurePipelines of src/gstreamer_player.cpp) has the decode pipelines.
--   Driver     the driver, in streaming_driver: Config (ConfigFromJson and CanUpdateDynamically of
--              main.cpp), Elements (include/pipelines.h), Pipeline (BuildCameraPipeline,
--              SwapEncoderProbe, SwapEncoderTail, UpdatePipelineProperties), Panorama
--              (CircularDistance, CameraSelectListener, SwapCameraProbe, and the parts of
--              RunPanoramicPipeline that change their state), Camera (ControlLoop and
--              RunCameraStreamingPipelineDynamic). Pipeline/Update compares an update with a
--              rebuild, Pipeline/Overtaken has two updates before one buffer, Pipeline/Leading
--              and Pipeline/Draining a pipeline with the swaps that wait, Camera/Pieces and Camera/Updates the
--              interleavings of the threads, Camera/Following and
--              Camera/Showing the pipeline in them. Latency (include/logging.h) is the
--              measurement of the stages, and Latency/Embedding what the packets of a frame carry.
--              Panorama/Frame has what a datagram and a probe leave alone, Panorama/Selection what
--              panoramic mode promises, Panorama/Overtaken datagrams while a swap waits,
--              Pipeline/Panoramic an update of the panoramic pipeline against a rebuild,
--              Camera/Stops the end of a camera thread, Camera/Going, Camera/Settles and
--              Camera/Arriving a thread that is left alone with a configuration. Runner (RunPanoramicPipeline, the key
--              frames of CameraSelectListener, and RunCameraStreaming) is panoramic mode with its
--              pipelines by number: Runner/Pieces and Runner/Lifetimes what is held while a
--              pipeline lives, Runner/Stops the end of the thread, Runner/Released a start that
--              fails, Runner/Modes a change of the mode, Runner/Going and Runner/Settles a thread
--              that is left alone with a configuration.
--   Link       the way of a configuration from Headset/Config over the server
--              (server/swagger_server/controllers/default_controller.py) to Driver/Config:
--              Link/Delivery what arrives, Link/Lockstep when both ends rebuild, Link/Offered what
--              the settings offer, Link/Receiving the decode pipelines against the stream of the
--              driver, Link/Arrival a pushed configuration up to the camera threads, Link/EndToEnd
--              the latency of a frame over both programs.
--   Examples   tests on concrete inputs, and the theorems applied to them.
--
-- How the code is modelled. A class or a group of globals is a record, a member function a function
-- on it, and a callback that another thread runs is a step of a relation, so an interleaving is a
-- sequence of steps. A function that throws returns `none`. An int is an integer where its
-- arithmetic cannot overflow and a bit pattern of 32 bits where it can (the counters of Sender); a
-- float or double is its bit pattern where it is only copied. A text is the list of its bytes.
-- Loops are structural recursion, so no fuel is used; the endless loops of the threads are cut into
-- pieces, and Camera/Stops and Runner/Stops count how many are left when a stop is requested.
--
-- Parameters. What GStreamer returns is the record Gst of Driver/Pipeline, and for the decode
-- pipelines Decoder of Headset/Receiver; what HTTP returns is
-- Reply of Headset/Rest; the JSON library is JsonObject of Driver/Config, a lookup for each kind of
-- value; `sendto`, the clock and the conversion of the quaternion are in World of Headset/Sender;
-- Exchange and Smooth of Headset/Ntp are what a time server answers and the rounding of the moving
-- average; Preferences and Floats of Headset/Storage are the preferences of Android and the
-- conversions of float, and FloatArithmetic of Headset/Table its arithmetic; Doubles of
-- Headset/Stats is the arithmetic of double, and JsonLibrary of Headset/Gateway is what the headset
-- uses of the JSON library; Answers of Driver/Runner and of Driver/Camera/Stops is what GStreamer
-- answers to a piece of a thread, and Programs of Headset/Drawing are names that OpenGL gave.
--
-- Not modelled: the rest of rendering, what OpenXR and OpenGL calls do, floating-point geometry,
-- the vendored libraries, the Python services but for the mapping of a configuration, and logging.
mod Prelude
pub mod Pts
pub mod Headset
pub mod Driver
pub mod Link
mod Examples
