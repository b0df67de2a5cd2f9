-- ===== src/Signaling/Endless.antt =====
-- Whether the loop of _process_query_buffer ends.
use grtcserver.Base.{
  ℕ, zero, suc, ◌+◌, ◌≤◌, ◌<◌, ◌≡◌, ◌≢◌, ◌∙◌, refl, sym, ap, List, [], ◌++◌, Option, none, some,
  Bool, true, false, ◌==◌, if◌then◌else◌, length, take, drop, arith, Bool-cases, Option-cases, inl,
  inr, ◌⊎◌,
}
use grtcserver.Signaling.{
  TcpConnection, State, state_head, state_body, RtcMsg, Json, Outcome, refused, running, finished,
  with_earlier, body_len_of, magic_num_of, ghead_magic_num, ghead_size, process_request,
  run_command, command_of, cmdno_push, cmdno_answer, push_msg_of, take_head, take_body, has_packet,
  process_query_buffer,
}
use grtcserver.Signaling.Framing.{leb-false, leb-true, process_waits, request-keeps}
use grtcserver.Signaling.Pieces.{process_round}

finished-running : (c : TcpConnection) (msgs : List RtcMsg) → finished c msgs ≢ running
finished-running c msgs h = cc

refused-running : (msgs : List RtcMsg) → refused msgs ≢ running
refused-running msgs h = cc

ended :
    (b : Bool) (x : Outcome) (msgs : List RtcMsg)
    → x ≢ running
    → (if b then x else refused msgs) ≢ running
ended true x msgs h = h
ended false x msgs h = refused-running msgs

State-cases : (s : State) → (s ≡ state_head) ⊎ (s ≡ state_body)
State-cases state_head = inl refl
State-cases state_body = inr refl

take_head-cases :
    (c : TcpConnection)
    → (take_head c ≡ none)
      ⊎ ((c' : TcpConnection) × (take_head c ≡ some c')
          × (c'.current_state ≡ state_body)
          × (c'.querybuf ≡ c.querybuf))
unfolding take_head
take_head-cases c = elim (Bool-cases (magic_num_of c.querybuf == ghead_magic_num)) [
  | inl e ↦ inr (
    record c {
      current_state = state_body;
      bytes_expected = body_len_of c.querybuf;
      bytes_processed = ghead_size;
    },
    rw e refl,
    refl,
    refl,
  )
  | inr e ↦ inl (rw e refl)
]

module _ {V : Type 0} (json : Json V) (beyond : List ℕ → List ℕ) (sent : Bool) (address : ℕ) where
  -- Whether a request is accepted does not depend on what was done before.
  abbrev later : List (List ℕ) → TcpConnection → TcpConnection
  later replies c = record c { reply_list = replies; bytes_processed = 65535 }

  run_command-accepts :
      (header : List ℕ) (root : V) (cmd : ℕ) (c : TcpConnection) (replies : List (List ℕ))
      → (run_command json beyond sent address header root cmd (later replies c)).0
        ≡ (run_command json beyond sent address header root cmd c).0
  unfolding run_command push_msg_of
  run_command-accepts header root cmd c replies = elim (Bool-cases (cmd == cmdno_push)) [
    | inl e ↦ rw e refl
    | inr e ↦ elim (Bool-cases (cmd == cmdno_answer)) [
      | inl f ↦ rw (e, f) refl
      | inr f ↦ rw (e, f) refl
    ]
  ]

  request-accepts :
      (header body : List ℕ) (c : TcpConnection) (replies : List (List ℕ))
      → (process_request json beyond sent address header body (later replies c)).0
        ≡ (process_request json beyond sent address header body c).0
  unfolding process_request
  request-accepts header body c replies =
      elim (Option-cases (command_of json beyond sent address body)) [
        | inl e ↦ rw (process_request, e) refl
        | inr (command, e) ↦
            rw (process_request, e) (run_command-accepts header command.0 command.1 c replies)
      ]

  -- A connection that has processed its packet, and whose buffer has grown to 65535 bytes and the
  -- length of the body, keeps _process_query_buffer in its loop for ever, if the request is
  -- accepted.
  pub process_query_buffer-running :
      (fuel : ℕ) (c : TcpConnection)
      → c.current_state ≡ state_body
      → c.bytes_processed ≡ 65535
      → 65535 + c.bytes_expected ≤ length c.querybuf
      → (take_body json beyond sent address c).0 ≡ true
      → process_query_buffer json beyond sent address fuel c ≡ running
  unfolding take_body process_query_buffer with_earlier has_packet
  process_query_buffer-running zero c b n h ok = refl
  process_query_buffer-running (suc fuel) c b n h ok =
      let header : List ℕ = take 36 c.querybuf in
      let body : List ℕ = take (body_len_of c.querybuf) (drop 36 c.querybuf) in
      let r : Bool × (TcpConnection × List RtcMsg) =
        process_request json beyond sent address header body c in
      let (replies, keeps) = request-keeps json beyond sent address header body c in
      let accepted : r.0 ≡ true = ok in
      let taken : take_body json beyond sent address c ≡ (true, (later replies c, r.1.1)) =
        λ i. (accepted i, (record (keeps i) { bytes_processed = 65535 }, r.1.1)) in
      let again : process_query_buffer json beyond sent address fuel (later replies c) ≡ running =
        process_query_buffer-running fuel (later replies c) b refl h
          (request-accepts header body c replies ∙ accepted) in
      process_round json beyond sent address fuel c (later replies c) r.1.1 true
        (leb-true (c.bytes_processed + c.bytes_expected) (length c.querybuf) (omega arith)) b taken
      ∙ ap (with_earlier r.1.1) again

  body-ends :
      (fuel : ℕ) (c : TcpConnection)
      → c.current_state ≡ state_body
      → length c.querybuf < 65535
      → process_query_buffer json beyond sent address (suc (suc fuel)) c ≢ running
  unfolding take_body with_earlier has_packet
  body-ends fuel c b h = elim (Bool-cases (has_packet c)) [
    | inr lacks ↦
        (let e : process_query_buffer json beyond sent address (suc (suc fuel)) c ≡ finished c [] =
            process_waits json beyond sent address (suc fuel) c lacks in
          λ f. finished-running c [] (sym e ∙ f))
    | inl has ↦
        let header : List ℕ = take 36 c.querybuf in
        let body : List ℕ = take (body_len_of c.querybuf) (drop 36 c.querybuf) in
        let r : Bool × (TcpConnection × List RtcMsg) =
          process_request json beyond sent address header body c in
        let (replies, keeps) = request-keeps json beyond sent address header body c in
        let c' : TcpConnection = later replies c in
        let taken : take_body json beyond sent address c ≡ (r.0, (c', r.1.1)) =
          λ i. (r.0, (record (keeps i) { bytes_processed = 65535 }, r.1.1)) in
        let full : has_packet c' ≡ false =
          leb-false (65535 + c.bytes_expected) (length c.querybuf) (omega arith) in
        let round : process_query_buffer json beyond sent address (suc (suc fuel)) c ≡ (
            if r.0
            then with_earlier r.1.1 (process_query_buffer json beyond sent address (suc fuel) c')
            else refused r.1.1) =
          process_round json beyond sent address (suc fuel) c c' r.1.1 r.0 has b taken in
        let rest : with_earlier r.1.1 (process_query_buffer json beyond sent address (suc fuel) c')
            ≡ finished c' (r.1.1 ++ []) =
          ap (with_earlier r.1.1) (process_waits json beyond sent address fuel c' full) in
        λ f.
          ended r.0
            (with_earlier r.1.1 (process_query_buffer json beyond sent address (suc fuel) c')) r.1.1
            (λ g. finished-running c' (r.1.1 ++ []) (sym rest ∙ g)) (sym round ∙ f)
  ]

  abbrev taken_head : ℕ → Option TcpConnection → Outcome
  taken_head fuel none = refused []
  taken_head fuel (some c) = process_query_buffer json beyond sent address fuel c

  head_round :
      (fuel : ℕ) (c : TcpConnection)
      → has_packet c ≡ true
      → c.current_state ≡ state_head
      → process_query_buffer json beyond sent address (suc fuel) c ≡ taken_head fuel (take_head c)
  unfolding process_query_buffer take_head
  head_round fuel c h b = rw (h, b) refl

  -- While the buffer holds fewer than 65535 bytes, the loop of _process_query_buffer ends within
  -- three rounds.
  pub process_query_buffer-ends :
      (c : TcpConnection)
      → length c.querybuf < 65535
      → process_query_buffer json beyond sent address 3 c ≢ running
  process_query_buffer-ends c h = elim (State-cases c.current_state) [
    | inr b ↦ body-ends 1 c b h
    | inl b ↦ elim (Bool-cases (has_packet c)) [
      | inr lacks ↦
          (λ f. finished-running c [] (sym (process_waits json beyond sent address 2 c lacks) ∙ f))
      | inl has ↦ elim (take_head-cases c) [
        | inl e ↦ (λ f. refused-running [] (sym (head_round 2 c has b ∙ ap (taken_head 2) e) ∙ f))
        | inr (c', e, b', same) ↦ (λ f.
            body-ends 0 c' b' (rw same h) (sym (head_round 2 c has b ∙ ap (taken_head 2) e) ∙ f))
      ]
    ]
  ]
