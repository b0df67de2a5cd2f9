-- ===== src/Lib.antt =====
-- A model of the grtc server: the STUN messages, the table of STUN requests, the ICE connections,
-- the ICE controller and the ICE channel of src/ice, the queue of src/base, the signaling worker of
-- src/server and the bundle of a session description of src/pc, with what they promise.
--
-- The parts, and the files that model them:
--   Wire: the calls into rtc_base (ByteBufferWriter and ByteBufferReader, byte order, CRC-32,
--     HMAC-SHA1), which is no part of the repository. A record of functions with a record of the
--     laws that the code relies on; Wire/Sample is one implementation of both.
--   Stun: src/ice/stun.h and src/ice/stun.cpp. StunMessage is the record of the class's members,
--     StunAttribute has the members of the base class and, as a value, those of the subclass.
--     Message holds add_attribute, write and read, Fingerprint and Integrity the two attributes
--     that seal a message. A write answers the bytes, or none where the code answers false; a read
--     takes the bytes that the buffer holds.
--   Requests: src/ice/stun_request.h and src/ice/stun_request.cpp. The std::map is an association
--     list; check_response answers which handler is called, and the map without the request.
--   Connection: src/ice/ice_connection.h, src/ice/ice_connection.cpp and constants of
--     src/ice/ice_def.cpp. IceConnection is the record of the members; an operation takes a
--     connection to a connection and the list of the signals raised. Reachable in History is the
--     step relation of a connection whose operations are called while the clock runs; Messages
--     has the ping and the response that a connection sends, Delivery on_read_packet.
--   Port: src/ice/udp_port.cpp, of which get_stun_message with its tests, the user name and the
--     error response. rtc::split is a parameter.
--   Controller: src/ice/ice_controller.h and src/ice/ice_controller.cpp. IceController is the record
--     of the members; a connection is its address, which a heap takes to the object, and a set of
--     pointers is a list in ascending order. absl::c_stable_sort is a parameter with the laws of
--     IsSort and IsPermuting; Sample is one such sort. Reachable in Parts is what the channel does
--     with it.
--   Channel: src/ice/ice_transport_channel.h and src/ice/ice_transport_channel.cpp.
--     IceTransportChannel is the record of the members with the heap of connections and the signals
--     raised so far. An operation of a connection runs with the slots that its events call; an
--     access through a null pointer has no result. Agreement is what a slot leaves, Checks the
--     timer, Reachable in History the events of a channel.
--   LockFreeQueue: src/base/lock_free_queue.h, over a memory that has a node or nothing at an
--     address. Each access to it is a step of the producer or of the consumer; Refined has the queue
--     of values that the steps implement, Whole the runs of the two threads. The field for `_size`
--     has the 32 bits of the int, size_of the int.
--   Signaling: src/server/signaling_worker.cpp, src/server/tcp_connection.h, src/base/ghead.h and
--     src/grtcserver_def.h. Signaling has the connection, the query buffer, the requests and the
--     replies; Worker the table of connections by file descriptor and the events. JsonCpp is a
--     record of its calls, and what lies in memory behind a text that was cut is a parameter.
--   Session: src/pc/session_description.h and src/pc/session_description.cpp, src/ice/ice_agent.cpp
--     and src/pc/transport_controller.cpp, of which the groups, the look-ups by name and the loop
--     of set_local_description that makes the channels.
-- A controller compares and pings the connections of a channel. A connection sends its pings
-- through the requests, which write and read the messages; its packets come through the port. The
-- channel owns a controller, and a connection tells its channel of a change by signals. The queue
-- carries file descriptors from the signaling server to a worker.
--
-- Numbers are natural, with the wrap-around of uint16_t, uint32_t and uint64_t written out, and the
-- narrowing to int where a time is assigned to one. The round-trip time is kept as it is: the
-- code's `2 * _rtt` is an int, so the model is for round-trip times below 2 ^ 30 ms. Times are those
-- of rtc::TimeMillis(), which does not run backwards.
-- Fuel: the two loops over the bytes of a message run on the length of the message, since each
-- round takes four bytes at least. The loop of produce and that of _process_query_buffer run on
-- fuel: some fuel is enough for the one, and three rounds for the other while the buffer holds fewer
-- than 65535 bytes; a run without an end is a result of its own.
--
-- Not modelled: the life of objects but for the nodes of the queue and the connections of the worker,
-- the memory model of C++, the log, sockets and the event loop, threads and pipes, random strings,
-- the average of round-trip times (a parameter), the gathering of candidates, the sockets of the
-- port, the signaling server, the RTC server, the text and the codecs of a session description,
-- DTLS, the peer connection and the streams.
pub mod Base
pub mod Wire
pub mod Stun
pub mod Requests
pub mod Connection
pub mod Controller
pub mod Port
pub mod LockFreeQueue
pub mod Channel
pub mod Signaling
pub mod Session
