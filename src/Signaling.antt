-- ===== src/Signaling.antt =====
-- src/server/signaling_worker.cpp, src/server/tcp_connection.h, src/base/ghead.h and
-- src/grtcserver_def.h: what a signaling worker does with a connection. The host is little-endian;
-- JsonCpp is a record of its calls; a call of the operating system is an argument with its result.
pub mod Worker
pub mod Framing
pub mod Table
pub mod Kept
pub mod Served
pub mod Pieces
pub mod Endless
pub mod Replies
mod Runs
use grtcserver.Base.{
  ℕ, zero, suc, ◌+◌, ◌-◌, ◌*◌, ◌/◌, ◌%◌, ◌^◌, List, [], ◌∷◌, ◌++◌, Option, none, some, Bool, true,
  false, ◌==◌, leb, ltb, if◌then◌else◌, length, take, drop, get_elem?, ◌>>=◌,
}

abbrev pub ghead_size : ℕ
ghead_size = 36

abbrev pub ghead_magic_num : ℕ
ghead_magic_num = 4213187074

abbrev pub max_res_buf : ℕ
max_res_buf = 4096

abbrev pub cmdno_push : ℕ
cmdno_push = 1

abbrev pub cmdno_answer : ℕ
cmdno_answer = 3

-- STATE_HEAD and STATE_BODY
pub data State : Type 0 where
  state_head state_body : State

-- The buffer is an sds, the reply a slice of bytes.
pub record TcpConnection : Type 0 where
  pub fd : ℕ
  pub querybuf : List ℕ
  pub bytes_expected : ℕ
  pub bytes_processed : ℕ
  pub current_state : State
  pub last_interaction : ℕ
  pub reply_list : List (List ℕ)
  pub cur_resp_pos : ℕ

unfoldable pub new_tcp_connection : ℕ → TcpConnection
new_tcp_connection fd = record {
  fd = fd;
  querybuf = [];
  bytes_expected = ghead_size;
  bytes_processed = 0;
  current_state = state_head;
  last_interaction = 0;
  reply_list = [];
  cur_resp_pos = 0;
}

-- An int is its bits. `conn` is the address of the connection.
pub record RtcMsg : Type 0 where
  pub cmdno : ℕ
  pub uid : ℕ
  pub stream_name : List ℕ
  pub stream_type : List ℕ
  pub audio : ℕ
  pub video : ℕ
  pub log_id : ℕ
  pub conn : ℕ
  pub sdp : List ℕ
  pub err_no : ℕ
  pub fd : ℕ

-- A field of ghead_t in the buffer.
unfoldable pub byte_at : List ℕ → ℕ → ℕ
byte_at bytes i = elim (get_elem? bytes i) [ none ↦ 0 | some b ↦ b ]

unfoldable pub get32 : List ℕ → ℕ → ℕ
get32 bytes i =
    byte_at bytes i
    + 2 ^ 8 * byte_at bytes (i + 1)
    + 2 ^ 16 * byte_at bytes (i + 2)
    + 2 ^ 24 * byte_at bytes (i + 3)

unfoldable pub log_id_of : List ℕ → ℕ
unfolding get32
log_id_of head = get32 head 4

unfoldable pub magic_num_of : List ℕ → ℕ
unfolding get32
magic_num_of head = get32 head 24

unfoldable pub body_len_of : List ℕ → ℕ
unfolding get32
body_len_of head = get32 head 32

unfoldable pub le32 : ℕ → List ℕ
le32 n = n % 2 ^ 8 ∷ n / 2 ^ 8 % 2 ^ 8 ∷ n / 2 ^ 16 % 2 ^ 8 ∷ n / 2 ^ 24 % 2 ^ 8 ∷ []

-- The names of the fields of a request.
pub data Key : Type 0 where
  cmdno uid stream_name audio video answer type : Key

-- The calls of JsonCpp: a parse without an error, the conversions, of which `none` is an exception,
-- and the texts that are written for a result and for an offer.
pub record Json (V : Type 0) : Type 0 where
  pub parse : List ℕ → Option V
  pub as_int : Key → V → Option ℕ
  pub as_uint64 : Key → V → Option ℕ
  pub as_string : Key → V → Option (List ℕ)
  pub result_text : Bool → List ℕ
  pub offer_text : ℕ → List ℕ → List ℕ

-- The buffer of a response holds max_res_buf bytes behind the header. `beyond` is what lies in
-- memory where a longer text was cut, of the length that the slice then claims.
unfoldable pub frame : (List ℕ → List ℕ) → List ℕ → List ℕ → List ℕ
unfolding le32
frame beyond header text =
    take 32 header
    ++ le32 (length text)
    ++ (if ltb (length text) max_res_buf then text else beyond text)

-- _add_reply, without the event that is started.
unfoldable pub add_reply : List ℕ → TcpConnection → TcpConnection
add_reply reply c = record c { reply_list = c.reply_list ++ reply ∷ [] }

-- The result of _process_query_buffer, with the messages that were sent to the RTC server: it
-- answers -1; it is still in the loop; or it answers 0.
pub data Outcome : Type 0 where
  refused : List RtcMsg → Outcome
  running : Outcome
  finished : TcpConnection → List RtcMsg → Outcome

unfoldable pub with_earlier : List RtcMsg → Outcome → Outcome
with_earlier msgs (refused more) = refused (msgs ++ more)
with_earlier msgs running = running
with_earlier msgs (finished c more) = finished c (msgs ++ more)

-- A round of the loop in STATE_HEAD; `none`: the magic number is wrong.
unfoldable pub take_head : TcpConnection → Option TcpConnection
take_head c =
    if magic_num_of c.querybuf == ghead_magic_num
    then some (record c {
      current_state = state_body;
      bytes_expected = body_len_of c.querybuf;
      bytes_processed = ghead_size;
    })
    else none

-- The test of the loop.
unfoldable pub has_packet : TcpConnection → Bool
has_packet c = leb (c.bytes_processed + c.bytes_expected) (length c.querybuf)

-- What sock_write_data answers: -1, or a number of bytes, 0 where the socket would block.
pub data Write : Type 0 where
  failed : Write
  wrote : ℕ → Write

-- The bytes that were written, and what comes next: the connection is closed; the loop would write
-- again; or it has ended.
pub data Written : Type 0 where
  closed : List ℕ → Written
  writing : List ℕ → List (List ℕ) → ℕ → Written
  written : List ℕ → List (List ℕ) → ℕ → Written

unfoldable pub with_sent : List ℕ → Written → Written
with_sent bytes (closed more) = closed (bytes ++ more)
with_sent bytes (writing more replies pos) = writing (bytes ++ more) replies pos
with_sent bytes (written more replies pos) = written (bytes ++ more) replies pos

-- The loop of _write_reply on reply_list and cur_resp_pos, with the answers of its writes.
unfoldable pub write_loop : List Write → List (List ℕ) → ℕ → Written
write_loop answers [] pos = written [] [] pos
write_loop [] (reply ∷ replies) pos = writing [] (reply ∷ replies) pos
write_loop (failed ∷ answers) (reply ∷ replies) pos = closed []
write_loop (wrote n ∷ answers) (reply ∷ replies) pos =
    let blocked : Written = write_loop answers (reply ∷ replies) pos in
    let complete : Written = write_loop answers replies 0 in
    let partial : Written = write_loop answers (reply ∷ replies) (pos + n) in
    if n == 0
    then blocked
    else with_sent (take n (drop pos reply))
        (if leb (length reply) (n + pos) then complete else partial)

-- `sent` is whether the message that send_rtc_msg has queued could be notified, `address` where the
-- connection lives.
module _ {V : Type 0} (json : Json V) (beyond : List ℕ → List ℕ) (sent : Bool) (address : ℕ) where
  unfoldable pub push_msg_of : ℕ → TcpConnection → V → ℕ → Option RtcMsg
  push_msg_of cmd c root log_id = json.as_uint64 uid root >>= λ uid_.
      json.as_string stream_name root >>= λ name. json.as_int audio root >>= λ audio_.
      json.as_int video root >>= λ video_. some (record {
        cmdno = cmd;
        uid = uid_;
        stream_name = name;
        stream_type = [];
        audio = audio_;
        video = video_;
        log_id = log_id;
        conn = address;
        sdp = [];
        err_no = 0;
        fd = c.fd;
      })

  unfoldable pub answer_msg_of : ℕ → V → ℕ → Option RtcMsg
  answer_msg_of cmd root log_id = json.as_uint64 uid root >>= λ uid_.
      json.as_string stream_name root >>= λ name. json.as_string answer root >>= λ answer_.
      json.as_string type root >>= λ type_. some (record {
        cmdno = cmd;
        uid = uid_;
        stream_name = name;
        stream_type = type_;
        audio = 0;
        video = 0;
        log_id = log_id;
        conn = 0;
        sdp = answer_;
        err_no = 0;
        fd = 0;
      })

  -- _process_push and _process_answer: whether they answer 0, and what was sent.
  unfoldable pub forward : Option RtcMsg → Bool × List RtcMsg
  forward none = (false, [])
  forward (some msg) = (sent, msg ∷ [])

  -- The command of a request, if it is one with a command.
  unfoldable pub command_of : List ℕ → Option (V × ℕ)
  command_of body = json.parse body >>= λ root. json.as_int cmdno root >>= λ cmd. some (root, cmd)

  -- The switch: a push ends the request; every other command is answered.
  unfoldable pub run_command : List ℕ → V → ℕ → TcpConnection → Bool × (TcpConnection × List RtcMsg)
  run_command header root cmd c =
      let pushed = forward (push_msg_of cmd c root (log_id_of header)) in
      let answered = forward (answer_msg_of cmd root (log_id_of header)) in
      if cmd == cmdno_push
      then (pushed.0, (c, pushed.1))
      else if cmd == cmdno_answer
      then (true, (add_reply (frame beyond header (json.result_text answered.0)) c, answered.1))
      else (true, (add_reply (frame beyond header (json.result_text true)) c, []))

  -- _process_request: whether it answers 0, the connection and what was sent.
  unfoldable pub process_request :
      List ℕ → List ℕ → TcpConnection → Bool × (TcpConnection × List RtcMsg)
  process_request header body c = elim (command_of body) [
    | none ↦ (false, (c, []))
    | some command ↦ run_command header command.0 command.1 c
  ]

  unfoldable pub take_body : TcpConnection → Bool × (TcpConnection × List RtcMsg)
  take_body c =
      let (ok, (c', msgs)) =
        process_request (take ghead_size c.querybuf)
          (take (body_len_of c.querybuf) (drop ghead_size c.querybuf)) c in
      (ok, (record c' { bytes_processed = 65535 }, msgs))

  -- _process_query_buffer, for so many rounds of its loop.
  unfoldable pub process_query_buffer : ℕ → TcpConnection → Outcome
  process_query_buffer zero c = running
  process_query_buffer (suc fuel) c =
      let after_head : Outcome = elim (take_head c) [
        | none ↦ refused []
        | some c' ↦ process_query_buffer fuel c'
      ] in
      let (ok, (c', msgs)) = take_body c in
      let after_body : Outcome = with_earlier msgs (process_query_buffer fuel c') in
      if has_packet c
      then elim c.current_state [
        | state_head ↦ after_head
        | state_body ↦ (if ok then after_body else refused msgs)
      ]
      else finished c []

  -- The bytes that one read has got are put behind the others.
  unfoldable pub receive : ℕ → List ℕ → TcpConnection → Outcome
  receive fuel bytes c = process_query_buffer fuel (record c { querybuf = c.querybuf ++ bytes })

  -- One read after another.
  unfoldable pub feed : ℕ → List (List ℕ) → TcpConnection → Outcome
  feed fuel [] c = finished c []
  feed fuel (bytes ∷ more) c = elim (receive fuel bytes c) [
    | refused msgs ↦ refused msgs
    | running ↦ running
    | finished c' msgs ↦ with_earlier msgs (feed fuel more c')
  ]
