-- ===== src/Signaling/Worker.antt =====
-- The worker: its table of connections by file descriptor, and what its events do.
use grtcserver.Base.{
  ℕ, ◌-◌, ◌*◌, List, [], ◌∷◌, ◌++◌, Option, none, some, Bool, false, ◌==◌, ◌||◌, leb, if◌then◌else◌,
  length, take, set, get_elem?, replicate,
}
use grtcserver.Signaling.{
  TcpConnection, new_tcp_connection, RtcMsg, Json, ghead_size, frame, add_reply, refused, running,
  finished, receive, Outcome, Write, Written, closed, writing, written, write_loop, cmdno_push,
}

-- `heap` has the connection at an address, and nothing where one was deleted; `q_msg` is the queue of answers of the RTC server,
-- `forwarded` what was sent to it.
pub record SignalingWorker : Type 0 where
  pub heap : ℕ → Option TcpConnection
  pub conns : List (Option ℕ)
  pub q_msg : List RtcMsg
  pub forwarded : List RtcMsg

-- An access through a null pointer, to a deleted connection or outside the vector; the thread stays in a loop; or all is well.
pub data Progress : Type 0 where
  fault : Progress
  hang : Progress
  done : SignalingWorker → Progress

unfoldable pub entry : List (Option ℕ) → ℕ → Option ℕ
entry conns fd = elim (get_elem? conns fd) [ none ↦ none | some o ↦ o ]

unfoldable pub put_connection : ℕ → TcpConnection → SignalingWorker → SignalingWorker
put_connection address c wk = record wk { heap = λ a. if a == address then some c else wk.heap a }

-- What is done with the connection that lives at an address.
unfoldable pub with_live : Option TcpConnection → (TcpConnection → Progress) → Progress
with_live none next = fault
with_live (some c) next = next c

-- _close_conn and _remove_conn, of the connection at the address.
unfoldable pub close_conn : ℕ → TcpConnection → SignalingWorker → SignalingWorker
close_conn address c wk = record wk {
  conns = set wk.conns c.fd none;
  heap = λ a. if a == address then none else wk.heap a;
}

-- `_conns.resize(fd * 2, nullptr)`
unfoldable pub resized : ℕ → List (Option ℕ) → List (Option ℕ)
resized fd conns =
    if leb (length conns) fd then conns ++ replicate (fd * 2 - length conns) none else conns

-- _new_conn, where operator new answers the address.
unfoldable pub new_conn : ℕ → ℕ → ℕ → SignalingWorker → Progress
new_conn address now fd wk =
    let conns = resized fd wk.conns in
    let wk' =
      put_connection address (record (new_tcp_connection fd) { last_interaction = now }) wk in
    if leb (length conns) fd
    then fault
    else done (record wk' { conns = set conns fd (some address) })

-- _process_timeout; the clock of the event loop does not run backwards.
unfoldable pub process_timeout : ℕ → ℕ → ℕ → SignalingWorker → Progress
process_timeout timeout now address wk =
    with_live (wk.heap address)
      (λ c. done (if leb timeout (now - c.last_interaction) then close_conn address c wk else wk))

-- What _write_reply makes of its loop. Where the writes of the call have all been answered and there
-- is more to write, the thread stays in the loop.
unfoldable pub after_writes : ℕ → ℕ → TcpConnection → SignalingWorker → Written → Progress
after_writes now address c wk (closed bytes) = done (close_conn address c wk)
after_writes now address c wk (writing bytes replies pos) = hang
after_writes now address c wk (written bytes replies pos) = done (
    put_connection address
      (record c { reply_list = replies; cur_resp_pos = pos; last_interaction = now }) wk)

unfoldable pub write_reply : ℕ → ℕ → List Write → SignalingWorker → Progress
write_reply now fd answers wk = if fd == 0 then done wk else elim (entry wk.conns fd) [
  | none ↦ done wk
  | some address ↦
      with_live (wk.heap address)
        (λ c. after_writes now address c wk (write_loop answers c.reply_list c.cur_resp_pos))
]

-- push_msg and pop_msg
unfoldable pub push_msg : RtcMsg → SignalingWorker → SignalingWorker
push_msg msg wk = record wk { q_msg = wk.q_msg ++ msg ∷ [] }

-- The queue without its first message.
unfoldable pub without_first : List RtcMsg → SignalingWorker → Option RtcMsg × SignalingWorker
without_first [] wk = (none, wk)
without_first (msg ∷ rest) wk = (some msg, record wk { q_msg = rest })

unfoldable pub pop_msg : SignalingWorker → Option RtcMsg × SignalingWorker
pop_msg wk = without_first wk.q_msg wk

unfoldable pub is_at : Option ℕ → ℕ → Bool
is_at none address = false
is_at (some a) address = a == address

-- What _read_query makes of the bytes that were read.
unfoldable pub after_read : ℕ → TcpConnection → SignalingWorker → Outcome → Progress
after_read address c wk (refused msgs) =
    done (close_conn address c (record wk { forwarded = wk.forwarded ++ msgs }))
after_read address c wk running = hang
after_read address c wk (finished c' msgs) =
    done (put_connection address c' (record wk { forwarded = wk.forwarded ++ msgs }))

module _ {V : Type 0} (json : Json V) (beyond : List ℕ → List ℕ) where
  -- _response_server_offer: to the connection of the message, if it is still the one with its file
  -- descriptor.
  unfoldable pub response_server_offer : RtcMsg → SignalingWorker → Progress
  response_server_offer msg wk =
      if msg.conn == 0
      then done wk
      else if msg.fd == 0 || leb (length wk.conns) msg.fd
      then done wk
      else if is_at (entry wk.conns msg.fd) msg.conn
      then with_live (wk.heap msg.conn) (λ c. done (
          put_connection msg.conn
            (add_reply
              (frame beyond (take ghead_size c.querybuf) (json.offer_text msg.err_no msg.sdp)) c)
            wk))
      else done wk

  -- A message that was taken from the queue.
  unfoldable pub answer_message : Option RtcMsg → SignalingWorker → Progress
  answer_message none wk = done wk
  answer_message (some msg) wk =
      if msg.cmdno == cmdno_push then response_server_offer msg wk else done wk

  unfoldable pub process_rtc_msg : SignalingWorker → Progress
  process_rtc_msg wk = answer_message (pop_msg wk).0 (pop_msg wk).1

  -- What sock_read_data has read: `none` is -1.
  unfoldable pub read_result :
      Bool → ℕ → ℕ → ℕ → Option (List ℕ) → TcpConnection → SignalingWorker → Progress
  read_result sent fuel now address none c wk = done (close_conn address c wk)
  read_result sent fuel now address (some new) c wk =
      after_read address c wk
        (receive json beyond sent address fuel new (record c { last_interaction = now }))

  -- _read_query. There is no test for a null pointer.
  unfoldable pub read_query : Bool → ℕ → ℕ → ℕ → Option (List ℕ) → SignalingWorker → Progress
  read_query sent fuel now fd bytes wk =
      if leb (length wk.conns) fd then done wk else elim (entry wk.conns fd) [
        | none ↦ fault
        | some address ↦
            with_live (wk.heap address) (λ c. read_result sent fuel now address bytes c wk)
      ]
