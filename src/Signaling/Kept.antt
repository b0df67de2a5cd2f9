-- ===== src/Signaling/Kept.antt =====
-- src/server/signaling_worker.cpp: a read and a write keep the table of connections.
use grtcserver.Base.{
  ℕ, zero, suc, ◌≡◌, refl, sym, ap, List, [], ◌++◌, Option, none, some, Bool, true, false, ◌==◌,
  leb, if◌then◌else◌, length, take, drop, Bool-cases, Option-cases, inl, inr, ◌⊎◌,
}
use grtcserver.Signaling.{
  TcpConnection, RtcMsg, Json, Outcome, refused, running, finished, State, state_head, state_body,
  with_earlier, receive, take_head, take_body, has_packet, process_query_buffer, body_len_of,
  magic_num_of, ghead_magic_num, Write, Written, closed, writing, written, write_loop, ghead_size,
}
use grtcserver.Signaling.Framing.{request-keeps}
use grtcserver.Signaling.Worker.{
  SignalingWorker, entry, write_reply, read_query, after_writes, after_read, read_result,
}
use grtcserver.Signaling.Table.{IsTable, Keeps, put-IsTable, close-IsTable, with_live-Keeps}

abbrev Holds : ℕ → Outcome → Type 0
Holds fd (refused msgs) = Unit {0}
Holds fd running = Unit {0}
Holds fd (finished c msgs) = c.fd ≡ fd

with_earlier-Holds :
    (fd : ℕ) (msgs : List RtcMsg) (o : Outcome) → Holds fd o → Holds fd (with_earlier msgs o)
unfolding with_earlier
with_earlier-Holds fd msgs (refused more) h = tt
with_earlier-Holds fd msgs running h = tt
with_earlier-Holds fd msgs (finished c more) h = h

if-Holds :
    (fd : ℕ) (b : Bool) (x y : Outcome) → Holds fd x → Holds fd y → Holds fd (if b then x else y)
if-Holds fd true x y h k = h
if-Holds fd false x y h k = k

take_head-fd :
    (c : TcpConnection)
    → (take_head c ≡ none) ⊎ ((c' : TcpConnection) × (take_head c ≡ some c') × (c'.fd ≡ c.fd))
unfolding take_head
take_head-fd c = elim (Bool-cases (magic_num_of c.querybuf == ghead_magic_num)) [
  | inl e ↦ inr (
    record c {
      current_state = state_body;
      bytes_expected = body_len_of c.querybuf;
      bytes_processed = ghead_size;
    },
    rw e refl,
    refl,
  )
  | inr e ↦ inl (rw e refl)
]

after_writes-Keeps :
    (now address : ℕ) (c : TcpConnection) (wk : SignalingWorker) (o : Written)
    → wk.heap address ≡ some c
    → IsTable wk
    → Keeps (after_writes now address c wk o)
unfolding after_writes
after_writes-Keeps now address c wk (closed bytes) live t = close-IsTable address c wk live t
after_writes-Keeps now address c wk (writing bytes replies pos) live t = tt
after_writes-Keeps now address c wk (written bytes replies pos) live t =
    put-IsTable address c
      (record c { reply_list = replies; cur_resp_pos = pos; last_interaction = now }) wk live refl t

pub write_reply-Keeps :
    (now fd : ℕ) (answers : List Write) (wk : SignalingWorker)
    → IsTable wk
    → Keeps (write_reply now fd answers wk)
unfolding write_reply
write_reply-Keeps now fd answers wk t = elim (Bool-cases (fd == 0)) [
  | inl e ↦ rw (write_reply, e) t
  | inr e ↦ elim (Option-cases (entry wk.conns fd)) [
    | inl n ↦ rw (write_reply, e, n) t
    | inr (address, f) ↦
        rw (write_reply, e, f)
          (with_live-Keeps (wk.heap address) _ (λ c live.
            after_writes-Keeps now address c wk (write_loop answers c.reply_list c.cur_resp_pos)
              live t))
  ]
]

module _ {V : Type 0} (json : Json V) (beyond : List ℕ → List ℕ) where
  take_body-fd :
      (sent : Bool) (address : ℕ) (c : TcpConnection)
      → (take_body json beyond sent address c).1.0.fd ≡ c.fd
  unfolding take_body
  take_body-fd sent address c =
      ap (λ (d : TcpConnection). d.fd)
        (request-keeps json beyond sent address (take 36 c.querybuf)
          (take (body_len_of c.querybuf) (drop 36 c.querybuf)) c).1

  module _ (sent : Bool) (address fuel : ℕ)
      (rest : (c : TcpConnection)
        → Holds c.fd (process_query_buffer json beyond sent address fuel c)) where
    after_head-Holds :
        (fd : ℕ) (o : Option TcpConnection)
        → (o ≡ none) ⊎ ((c : TcpConnection) × (o ≡ some c) × (c.fd ≡ fd))
        → Holds fd (elim o as (λ x. Outcome) [
          | none ↦ refused []
          | some c ↦ process_query_buffer json beyond sent address fuel c
        ])
    after_head-Holds fd o (inl e) = rw e tt
    after_head-Holds fd o (inr (c, e, f)) = rw (e, sym f) (rest c)

    by_state-Holds :
        (c : TcpConnection) (s : State)
        → Holds c.fd (elim s as (λ x. Outcome) [
          | state_head ↦ elim (take_head c) as (λ x. Outcome) [
            | none ↦ refused []
            | some c' ↦ process_query_buffer json beyond sent address fuel c'
          ]
          | state_body ↦
              (if (take_body json beyond sent address c).0
                then with_earlier (take_body json beyond sent address c).1.1 (
                    process_query_buffer json beyond sent address fuel
                      (take_body json beyond sent address c).1.0)
                else refused (take_body json beyond sent address c).1.1)
        ])
    by_state-Holds c state_head = after_head-Holds c.fd (take_head c) (take_head-fd c)
    by_state-Holds c state_body =
        let (ok, (c', msgs)) = take_body json beyond sent address c in
        if-Holds c.fd ok (with_earlier msgs (process_query_buffer json beyond sent address fuel c'))
          (refused msgs)
          (with_earlier-Holds c.fd msgs (process_query_buffer json beyond sent address fuel c')
            (rw (take_body-fd sent address c) at (rest c')))
          tt

  process_query_buffer-Holds :
      (sent : Bool) (address fuel : ℕ) (c : TcpConnection)
      → Holds c.fd (process_query_buffer json beyond sent address fuel c)
  unfolding process_query_buffer
  process_query_buffer-Holds sent address zero c = tt
  process_query_buffer-Holds sent address (suc fuel) c =
      if-Holds c.fd (has_packet c) _ _
        (by_state-Holds sent address fuel (λ c'. process_query_buffer-Holds sent address fuel c') c
          c.current_state)
        refl

  receive-Holds :
      (sent : Bool) (address fuel : ℕ) (bytes : List ℕ) (c : TcpConnection)
      → Holds c.fd (receive json beyond sent address fuel bytes c)
  unfolding receive
  receive-Holds sent address fuel bytes c =
      process_query_buffer-Holds sent address fuel (record c { querybuf = c.querybuf ++ bytes })

  after_read-Keeps :
      (address : ℕ) (c : TcpConnection) (wk : SignalingWorker) (o : Outcome)
      → wk.heap address ≡ some c
      → IsTable wk
      → Holds c.fd o
      → Keeps (after_read address c wk o)
  unfolding after_read
  after_read-Keeps address c wk (refused msgs) live t h =
      close-IsTable address c (record wk { forwarded = wk.forwarded ++ msgs }) live t
  after_read-Keeps address c wk running live t h = tt
  after_read-Keeps address c wk (finished c' msgs) live t h =
      put-IsTable address c c' (record wk { forwarded = wk.forwarded ++ msgs }) live h t

  read_result-Keeps :
      (sent : Bool) (fuel now address : ℕ) (bytes : Option (List ℕ)) (c : TcpConnection)
      (wk : SignalingWorker)
      → wk.heap address ≡ some c
      → IsTable wk
      → Keeps (read_result json beyond sent fuel now address bytes c wk)
  unfolding read_result
  read_result-Keeps sent fuel now address none c wk live t = close-IsTable address c wk live t
  read_result-Keeps sent fuel now address (some new) c wk live t =
      let c' : TcpConnection = record c { last_interaction = now } in
      after_read-Keeps address c wk (receive json beyond sent address fuel new c') live t
        (receive-Holds sent address fuel new c')

  pub read_query-Keeps :
      (sent : Bool) (fuel now fd : ℕ) (bytes : Option (List ℕ)) (wk : SignalingWorker)
      → IsTable wk
      → Keeps (read_query json beyond sent fuel now fd bytes wk)
  unfolding read_query
  read_query-Keeps sent fuel now fd bytes wk t = elim (Bool-cases (leb (length wk.conns) fd)) [
    | inl e ↦ rw (read_query, e) t
    | inr e ↦ elim (Option-cases (entry wk.conns fd)) [
      | inl n ↦ rw (read_query, e, n) tt
      | inr (address, f) ↦
          rw (read_query, e, f)
            (with_live-Keeps (wk.heap address) _
              (λ c live. read_result-Keeps sent fuel now address bytes c wk live t))
    ]
  ]
