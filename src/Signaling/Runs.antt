-- ===== src/Signaling/Runs.antt =====
-- The theorems about the signaling worker on an answer of one byte.
use grtcserver.Base.{
  ℕ, ◌≤◌, ◌≡◌, ◌≢◌, refl, List, [], ◌∷◌, ◌++◌, none, some, true, ◌==◌, if◌then◌else◌, arith, length,
  replicate, drop, length-append, length-replicate,
}
use grtcserver.Signaling.{
  TcpConnection, new_tcp_connection, state_body, Json, running, process_query_buffer,
  process_request, run_command, take_body, magic_num_of, body_len_of, log_id_of, get32, byte_at,
  frame, feed, wrote, write_loop, command_of,
}
use grtcserver.Signaling.Framing.{IsPacket, waiting, serve}
use grtcserver.Signaling.Pieces.{feed-packet}
use grtcserver.Signaling.Endless.{process_query_buffer-running, process_query_buffer-ends}
use grtcserver.Signaling.Replies.{Sends, write_loop-Sends, frame-IsPacket}
use grtcserver.Signaling.Worker.{SignalingWorker}

-- A body is its first byte, which is the command and every field.
abbrev sample_json : Json ℕ
sample_json = record {
  parse = λ bytes. elim bytes [ [] ↦ none | b ∷ rest ↦ some b ];
  as_int = λ key v. some v;
  as_uint64 = λ key v. some v;
  as_string = λ key v. some (v ∷ []);
  result_text = λ ok. if ok then 1 ∷ [] else 0 ∷ [];
  offer_text = λ err_no sdp. sdp;
}

abbrev no_beyond : List ℕ → List ℕ
no_beyond text = text

abbrev first_bytes : List ℕ
first_bytes = 1 ∷ 0 ∷ 0 ∷ 0 ∷ 9 ∷ 0 ∷ 0 ∷ 0 ∷ 0 ∷ 0 ∷ 0 ∷ 0 ∷ 0 ∷ 0 ∷ 0 ∷ 0 ∷ 0 ∷ 0 ∷ 0 ∷ 0 ∷ []

abbrev other_bytes : List ℕ
other_bytes = 0 ∷ 0 ∷ 0 ∷ 0 ∷ 2 ∷ 34 ∷ 32 ∷ 251 ∷ 0 ∷ 0 ∷ 0 ∷ 0 ∷ 1 ∷ 0 ∷ 0 ∷ 0 ∷ []

abbrev last_bytes : List ℕ
last_bytes = 3 ∷ []

abbrev packet : List ℕ
packet = first_bytes ++ (other_bytes ++ last_bytes)

packet-IsPacket : IsPacket packet
unfolding magic_num_of body_len_of get32 byte_at
packet-IsPacket = record { magic = refl; measured = refl }

abbrev fresh : TcpConnection
fresh = new_tcp_connection 7

feed-packet_example :
    feed sample_json no_beyond true 1 3
      (first_bytes ∷ (other_bytes ++ last_bytes) ∷ [])
      (waiting packet [] fresh)
    ≡ serve sample_json no_beyond true 1 packet fresh
feed-packet_example =
    feed-packet sample_json no_beyond true 1 (first_bytes ∷ []) [] (other_bytes ++ last_bytes) fresh
      packet-IsPacket (omega arith)

abbrev loaded : TcpConnection
loaded = record fresh { querybuf = packet }

process_query_buffer-ends_example :
    process_query_buffer sample_json no_beyond true 1 3 loaded ≢ running
process_query_buffer-ends_example =
    process_query_buffer-ends sample_json no_beyond true 1 loaded (omega arith)

-- A peer has gone on sending.
abbrev flooded : TcpConnection
flooded = record fresh {
  querybuf = packet ++ replicate 65536 0;
  current_state = state_body;
  bytes_expected = 1;
  bytes_processed = 65535;
}

flooded_long : 65536 ≤ length flooded.querybuf
flooded_long =
    let zeros : List ℕ = replicate 65536 0 in
    let zero_count : length zeros ≡ 65536 = length-replicate 65536 (let z : ℕ = 0 in z) in
    omega (arith, length-append packet zeros, zero_count)

flooded_accepted : (take_body sample_json no_beyond true 1 flooded).0 ≡ true
unfolding take_body process_request command_of run_command body_len_of get32 byte_at
flooded_accepted = refl

process_query_buffer-running_example :
    process_query_buffer sample_json no_beyond true 1 1000 flooded ≡ running
process_query_buffer-running_example =
    process_query_buffer-running sample_json no_beyond true 1 1000 flooded refl refl flooded_long
      flooded_accepted

abbrev two_replies : List (List ℕ)
two_replies = (1 ∷ 2 ∷ 3 ∷ []) ∷ (4 ∷ []) ∷ []

write_loop-Sends_example :
    Sends two_replies 0 (write_loop (wrote 2 ∷ wrote 0 ∷ wrote 1 ∷ []) two_replies 0)
write_loop-Sends_example = write_loop-Sends (wrote 2 ∷ wrote 0 ∷ wrote 1 ∷ []) two_replies 0

header_magic : magic_num_of (first_bytes ++ other_bytes) ≡ 4213187074
unfolding magic_num_of get32 byte_at
header_magic = refl

frame-IsPacket_example :
    IsPacket (frame no_beyond (first_bytes ++ other_bytes) (65 ∷ []))
    × (drop 36 (frame no_beyond (first_bytes ++ other_bytes) (65 ∷ [])) ≡ 65 ∷ [])
    × (log_id_of (frame no_beyond (first_bytes ++ other_bytes) (65 ∷ []))
        ≡ log_id_of (first_bytes ++ other_bytes))
frame-IsPacket_example =
    frame-IsPacket no_beyond (first_bytes ++ other_bytes) (65 ∷ []) refl header_magic (omega arith)

abbrev empty_worker : SignalingWorker
empty_worker = record { heap = λ a. none; conns = []; q_msg = []; forwarded = [] }

abbrev second : TcpConnection
second = record (new_tcp_connection 2) { last_interaction = 10 }

abbrev connected : SignalingWorker
connected = record empty_worker {
  heap = λ a. if a == 1 then some second else none;
  conns = none ∷ none ∷ some 1 ∷ none ∷ [];
}
