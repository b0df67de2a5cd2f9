-- ===== src/Signaling/Pieces.antt =====
-- Reads of a packet in pieces, one after another.
use grtcserver.Base.{
  ℕ, suc, ◌+◌, ◌-◌, ◌≤◌, ◌<◌, ◌≡◌, ◌∙◌, refl, sym, ap, List, [], ◌∷◌, ◌++◌, Bool, true, false, leb,
  ltb, if◌then◌else◌, length, take, drop, arith, inl, inr, ◌⊎◌, append-nil, append_assoc,
  length-append, take-all, length-drop,
}
use grtcserver.Signaling.{
  TcpConnection, state_head, state_body, RtcMsg, Json, Outcome, refused, running, finished,
  with_earlier, body_len_of, process_request, take_body, has_packet, process_query_buffer, receive,
  feed,
}
use grtcserver.Signaling.Framing.{
  IsPacket, waiting, headed, serve, with_earlier-nil, leb-false, leb-true, process_waits,
  process_head, process_headed, request-keeps,
}

abbrev pub concat : List (List ℕ) → List ℕ
concat [] = []
concat (x ∷ xs) = x ++ concat xs

ltb-cases : (a b : ℕ) → ((ltb a b ≡ true) × (a < b)) ⊎ ((ltb a b ≡ false) × (b ≤ a))
ltb-cases a b = ground arith

short_head :
    (part : List ℕ) (c : TcpConnection)
    → length part < 36
    → has_packet (record c {
      querybuf = part;
      current_state = state_head;
      bytes_expected = 36;
      bytes_processed = 0;
    })
      ≡ false
unfolding has_packet
short_head part c h = leb-false 36 (length part) h

nothing_earlier : (o : Outcome) → with_earlier [] o ≡ o
unfolding with_earlier
nothing_earlier (refused msgs) = refl
nothing_earlier running = refl
nothing_earlier (finished c msgs) = refl

finished_as_is :
    (o : Outcome)
    → (elim o as (λ x. Outcome) [
      | refused msgs ↦ refused msgs
      | running ↦ running
      | finished c msgs ↦ with_earlier msgs (finished c [])
    ])
      ≡ o
finished_as_is (refused msgs) = refl
finished_as_is running = refl
finished_as_is (finished c msgs) = with_earlier-nil msgs c

module _ {V : Type 0} (json : Json V) (beyond : List ℕ → List ℕ) (sent : Bool) (address : ℕ) where
  -- Another part, short of the whole packet.
  receive-part :
      (part bytes rest : List ℕ) (c : TcpConnection)
      → IsPacket ((part ++ bytes) ++ rest)
      → 0 < length rest
      → receive json beyond sent address 3 bytes (waiting ((part ++ bytes) ++ rest) part c)
        ≡ finished (waiting ((part ++ bytes) ++ rest) (part ++ bytes) c) []
  unfolding receive
  receive-part part bytes rest c p h =
      let whole : List ℕ = part ++ bytes in
      elim (ltb-cases (length part) 36) [
        | inl (e, lt) ↦ elim (ltb-cases (length whole) 36) [
          | inl (f, lt) ↦
              rw (e, f)
                (process_waits json beyond sent address 2
                  (record c {
                    querybuf = whole;
                    current_state = state_head;
                    bytes_expected = 36;
                    bytes_processed = 0;
                  })
                  (short_head whole c lt))
          | inr (f, le) ↦
              rw (e, f)
                (process_head json beyond sent address 2 whole rest c p le
                  ∙ process_headed json beyond sent address 1 whole rest c p h)
        ]
        | inr (e, le) ↦
            let longer : length whole ≡ length part + length bytes = length-append part bytes in
            let f : ltb (length whole) 36 ≡ false = ground arith in
            rw (e, f) (process_headed json beyond sent address 2 whole rest c p h)
      ]

  pub process_round :
      (fuel : ℕ) (c c' : TcpConnection) (msgs : List RtcMsg) (ok : Bool)
      → has_packet c ≡ true
      → c.current_state ≡ state_body
      → take_body json beyond sent address c ≡ (ok, (c', msgs))
      → process_query_buffer json beyond sent address (suc fuel) c ≡ (
          if ok
          then with_earlier msgs (process_query_buffer json beyond sent address fuel c')
          else refused msgs)
  unfolding process_query_buffer
  process_round fuel c c' msgs ok h b t = rw (h, b, t) refl

  -- The round that has the whole packet.
  process_body :
      (fuel : ℕ) (packet : List ℕ) (c : TcpConnection)
      → IsPacket packet
      → process_query_buffer json beyond sent address (suc (suc fuel)) (headed packet packet c)
        ≡ serve json beyond sent address packet c
  unfolding has_packet take_body
  process_body fuel packet c p =
      let from : TcpConnection = headed packet packet c in
      let body : take (body_len_of packet) (drop 36 packet) ≡ drop 36 packet =
        take-all (body_len_of packet) (drop 36 packet)
          (length-drop 36 packet ∙ ap (λ n. n - 36) p.measured ∙ (omega arith)) in
      let test : has_packet from ≡ true =
        leb-true (36 + body_len_of packet) (length packet) (omega (arith, p.measured)) in
      let r : Bool × (TcpConnection × List RtcMsg) =
        process_request json beyond sent address (take 36 packet) (drop 36 packet) from in
      let (replies, keeps) =
        request-keeps json beyond sent address (take 36 packet) (drop 36 packet) from in
      let c' : TcpConnection = record r.1.0 { bytes_processed = 65535 } in
      let taken : take_body json beyond sent address from ≡ (r.0, (c', r.1.1)) = rw body refl in
      let over : leb (65535 + body_len_of packet) (length packet) ≡ false =
        leb-false (65535 + body_len_of packet) (length packet) (omega (arith, p.measured)) in
      let full : has_packet c' ≡ false =
        ap (λ (d : TcpConnection). leb (65535 + d.bytes_expected) (length d.querybuf)) keeps
        ∙ over in
      process_round (suc fuel) from c' r.1.1 r.0 test refl taken
      ∙ ap (λ o. if r.0 then o else refused r.1.1)
          (ap (with_earlier r.1.1) (process_waits json beyond sent address fuel c' full)
            ∙ with_earlier-nil r.1.1 c')

  receive-last :
      (part bytes : List ℕ) (c : TcpConnection)
      → IsPacket (part ++ bytes)
      → receive json beyond sent address 3 bytes (waiting (part ++ bytes) part c)
        ≡ serve json beyond sent address (part ++ bytes) c
  unfolding receive
  receive-last part bytes c p =
      let packet : List ℕ = part ++ bytes in
      let whole : IsPacket (packet ++ []) = rw append-nil p in
      let long : 36 ≤ length packet = omega (arith, p.measured) in
      let none_left : packet ++ [] ≡ packet = append-nil packet in
      elim (ltb-cases (length part) 36) [
        | inl (e, _) ↦ rw e (
            process_head json beyond sent address 2 packet [] c whole long
            ∙ ap
                (λ (l : List ℕ).
                  process_query_buffer json beyond sent address 2 (headed l packet c))
                none_left
            ∙ process_body 0 packet c p)
        | inr (e, _) ↦ rw e (process_body 1 packet c p)
      ]

  feed-one :
      (bytes : List ℕ) (c : TcpConnection)
      → feed json beyond sent address 3 (bytes ∷ []) c ≡ receive json beyond sent address 3 bytes c
  unfolding feed
  feed-one bytes c = finished_as_is (receive json beyond sent address 3 bytes c)

  feed-more :
      (bytes : List ℕ) (more : List (List ℕ)) (c c' : TcpConnection)
      → receive json beyond sent address 3 bytes c ≡ finished c' []
      → feed json beyond sent address 3 (bytes ∷ more) c ≡ feed json beyond sent address 3 more c'
  unfolding feed
  feed-more bytes more c c' h =
      ap
        (λ o. elim o as (λ x. Outcome) [
          | refused msgs ↦ refused msgs
          | running ↦ running
          | finished d msgs ↦ with_earlier msgs (feed json beyond sent address 3 more d)
        ])
        h
      ∙ nothing_earlier (feed json beyond sent address 3 more c')

  -- A connection to which a part of a packet has come, and then the rest in any pieces, one read
  -- after another: the request is processed once, when the last piece has come, with the 36 bytes
  -- of the header and the body behind them, as if the packet had come at once.
  pub feed-packet :
      (pieces : List (List ℕ)) (part last : List ℕ) (c : TcpConnection)
      → IsPacket (part ++ (concat pieces ++ last))
      → 0 < length last
      → feed json beyond sent address 3
          (pieces ++ last ∷ [])
          (waiting (part ++ (concat pieces ++ last)) part c)
        ≡ serve json beyond sent address (part ++ (concat pieces ++ last)) c
  unfolding feed
  feed-packet [] part last c p h =
      feed-one last (waiting (part ++ last) part c) ∙ receive-last part last c p
  feed-packet (bytes ∷ pieces) part last c p h =
      let rest : List ℕ = concat pieces ++ last in
      let regroup : part ++ ((bytes ++ concat pieces) ++ last) ≡ (part ++ bytes) ++ rest =
        ap (◌++◌ part) (append_assoc bytes (concat pieces) last)
        ∙ sym (append_assoc part bytes rest) in
      let p' : IsPacket ((part ++ bytes) ++ rest) = rw regroup at p in
      let longer : length rest ≡ length (concat pieces) + length last =
        length-append (concat pieces) last in
      rw regroup (
        feed-more bytes (pieces ++ last ∷ []) (waiting ((part ++ bytes) ++ rest) part c)
          (waiting ((part ++ bytes) ++ rest) (part ++ bytes) c)
          (receive-part part bytes rest c p' (omega arith))
        ∙ feed-packet pieces (part ++ bytes) last c p' h)
