-- ===== src/Lib.antt =====
-- A verification library of the RTC framework: vehicle control, its packet layer, the dog command
-- forwarder, view control, the signalling server, the session and the connection manager.
--
-- The program. A console and a vehicle exchange control messages over data channels. The console
-- encodes drive commands, gear requests and dog actions; the vehicle's `VehicleControlModule` queues
-- what the transport's threads bring, works it off in `Tick`, asks `DriveCommandGate` whether a drive
-- command may pass, calls the device interface, and answers with acknowledgements and states. The
-- transport's packet layer cuts messages into packets and puts them together again. One device is a
-- robot dog, to which `DogCommandForwarder` passes velocities and goals over a WebSocket. The console
-- also chooses the view that the vehicle's cameras send. The signalling server brings sessions together
-- in rooms. On both sides `RtcSession` enters a room and counts its peers, and below it
-- `RtcConnectionManager` keeps the WebSocket to the signalling server and the peer connections.
--
-- The files.
--   Base: native numbers, lists, maps, and `float` as bit patterns (Float32), passed on to all.
--   VehicleProtocol: client/protocols/vehicle (vehicle_control_protocol.h, vehicle_control_protocol.cpp
--   and the structs of generated/rtc_vehicle.pb.h). Types has the data types, Pb the structs of the
--   generated header and the parameter `Nanopb` with its named laws, Enums `To...`, `From...` and
--   `IsKnown...`, Validate `Validate...`, Encode `Fill...` and `Encode...`, Decode `DecodeEnvelope`,
--   and Gate the class `DriveCommandGate`. EnumLaws, ValidateLaws, Payloads, Roundtrip, DecodeLaws and
--   GateLaws have their theorems; Examples has an encoding that keeps the laws of `Nanopb`.
--   VehicleModule: client/modules/vehicle (vehicle_control_module.h and .cpp, and the interface of
--   vehicle_control_interface.h). State has the members, Send the stops and what is sent to the peer,
--   Drive `ProcessDriveCommand` and `ProcessSetGear`, Dog the dog actions, Events `ProcessEvent`,
--   `ProcessMessage` and the peers, Queue the `Enqueue...` calls, and Tick `Tick`, `Start` and
--   `Shutdown`. Safety, SafetyEvents and SafetyRun follow the stops through all calls; Lockout,
--   LockoutMessages and LockoutEvents the locked-out session; DogLaws and QueueLaws the ids and the
--   queue. Session is a concrete session for the tests.
--   Packet: vtsrtc/src/packet. Types has packtype.h, buffer.h and squeue.h, Packetizer and Depacketizer
--   the classes of these names. Header, Slots, Sending, Receiving, Roundtrip and Channel follow a message
--   from `Split` to the data callback; Accounts and Counters have the counters.
--   VehicleModule/Interfaces: vehicle_control_interface.cpp, the debug and the placeholder interface as
--   instances of `Device`; InterfaceLaws has the answers of all devices.
--   Dog: client/modules/dog (dog_command_forwarder.h and .cpp). Types has the members, Connection and
--   Incoming what the io thread does, Tasks what the caller's thread posts and the events, Framing
--   `BuildWsFrame`, Url `ParseWsUrl`, Forward the commands. Notices, Buffer and Idle say what a call leaves
--   alone;
--   StopFirst and StopFirstRun follow the frames that are written, Accounts and the modules Accounts...
--   the requests, Readings, Fuel and Chunks the bytes that arrive; Priority, ForwardLaws and Braking
--   follow a command to the socket, FramingLaws the bytes of a frame.
--   Console: client/apps/rtc_console. Commands, Gamepad and Targets have the parts of
--   vehicle_control_sender.cpp, with Acks; Slots has device_slot_registry.h, LogLimiter
--   vehicle_state_log_limiter.cpp and Fullscreen video_fullscreen_state.h. The modules named ...Laws,
--   GamepadHeld and SlotsHistory have theorems of these.
--   View: client/protocols/vision (view_control_protocol.h and .cpp) in Types, Codec and CodecLaws; Modes
--   has video_view_state.cpp of the console and video_send_planner.cpp of the edge application.
--   Vision: client/protocols/vision (vision_detection_codec.h and .cpp). Types has the structs, Codec
--   what is filled in, Envelopes the calls; Laws the assumptions on nanopb, Accepted the frames that
--   are accepted, Roundtrip a frame and ClassRoundtrip a class map that is filled in and read back,
--   Arrival and Messages a message from end to end.
--   Signaling: signaling-server/src. Rooms has the rooms of ws_controller.cpp and the requests of
--   http_controller.cpp, Server the connections and messages; Seats, Leaving and RoomsLaws count the
--   seats of a session, ServerLaws follows the connections.
--   Runtime: client/modules/runtime (rtc_session.h and .cpp). Types has the members, Init `Init`, Session
--   the other methods and the handlers, with all events; Kept what `Init` leaves alone, Peers, Attempts,
--   Sending and InitLaws the peers, the attempts to enter the room, and the frames.
--   Manager: vtsrtc/src (rtc_connection_manager.h and .cpp). Link is the WebSocket's thread, Peers the peer
--   connections and the tasks of the logic thread, Requests the calls to the HTTP server and all events,
--   Senders `SetRtpSendersPriority`, Frames `FitFrameSize` of rtc_videosource.hpp. LinkLaws follows the
--   link; Held, Stable, PeersLaws and Replaced the peer connections, Joining a conference; Divisor and
--   FrameSizes the size of a frame.
-- The Tests modules hold concrete runs.
--
-- How the code is read. A method is a function from the members to the members. An enum that is cast
-- from a foreign number has a constructor for the values that it does not list. The numbers of 16, 32
-- and 64 bits wrap where the code counts up. `VehicleControlModule` is a record with the state of the
-- outside world and the list of what was done to it, newest first; the device interface and the send
-- callback are the parameter `Device`. The calls of other threads enter between ticks, as the mutex
-- allows. The threads of the packetizer and of the depacketizer are rounds of their `Process` loops.
-- The io thread of the forwarder takes its events in any order: a timer or an operation may end whenever
-- the code's own tests let it. A goal id, a room id and a connection are only compared, and are numbers;
-- a frame to the dog is the message it carries.
--
-- Parameters. nanopb (`pb_encode`, `pb_decode`) is `Nanopb`: the round trips assume that decoding what
-- was encoded gives the fields back, for structs whose optional fields are all set and whose numbers
-- fit their widths; for the detection protocol a field that is not set is read as its default, an array
-- of characters is the text up to its first zero, and an error of nanopb has a text. Floats are
-- compared by their bits, after IEEE 754. The product of floats, `std::stoul`, the JSON library's
-- reading of a behaviour result, and what the console's send callback answers are parameters without
-- assumptions, and so are what the C interface answers to the session, and whether WebRTC creates a
-- peer connection, parses a text and takes the parameters of a sender.
--
-- Fuel. The search for a free completion id has two rounds more than there are entries. The loop that
-- cuts a message has as many rounds as the message has bytes, and a round takes at least one. Reading
-- frames has the length of the buffer, and each frame takes at least two bytes of it; any more fuel gives
-- the same. Leaving the rooms has one turn more than there are rooms. The search for a divisor has one
-- round more than the height, and the remainder falls in each.
--
-- Not modelled: the logs, the threads' scheduling and the semaphores, and a `malloc` that fails. A read
-- past the end of a packet, and of the pointer of an error's buffer, which is never set, is a fault of
-- the model. Of the dog command forwarder, the text of the
-- handshake and the wait in `Start`; of the console's sender, the steering angle; of the signalling
-- server, the files it serves and who is told of a room. Of the connection manager, the streams to and
-- from an SRS server, the tracks, transceivers and bitrates of a new connection, and the statistics. Of
-- the rest of the repository the options and the user interface of the console and the application of
-- the edge are left out; the media code, the statistics and the vendored libraries are not part
-- of this library.
mod Base
pub mod VehicleProtocol
pub mod VehicleModule
pub mod Packet
pub mod Dog
pub mod Console
pub mod View
pub mod Signaling
pub mod Runtime
pub mod Manager
pub mod Vision
