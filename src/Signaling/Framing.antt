-- ===== src/Signaling/Framing.antt =====
-- A request comes in pieces: the answer does not depend on how it was cut.
use grtcserver.Base.{
  ℕ, zero, suc, ◌+◌, ◌≤◌, ◌<◌, ◌≡◌, ◌∙◌, refl, sym, ap, List, [], ◌∷◌, ◌++◌, none, some, Bool, true,
  false, ◌==◌, leb, ltb, if◌then◌else◌, length, take, drop, get_elem?, arith, Option-cases, inl,
  inr, append-nil, length-append,
}
use grtcserver.Signaling.{
  ghead_size, ghead_magic_num, TcpConnection, state_head, state_body, RtcMsg, Json, Outcome,
  refused, finished, with_earlier, byte_at, get32, magic_num_of, body_len_of, process_request,
  run_command, command_of, cmdno_push, cmdno_answer, add_reply, take_head, has_packet,
  process_query_buffer,
}

-- A packet whose header announces the rest.
pub record IsPacket (packet : List ℕ) : Type 0 where
  pub magic : magic_num_of packet ≡ ghead_magic_num
  pub measured : length packet ≡ ghead_size + body_len_of packet

-- A connection on which part of the packet has come, short of the whole.
abbrev pub waiting : List ℕ → List ℕ → TcpConnection → TcpConnection
waiting packet part c =
    if ltb (length part) ghead_size
    then record c {
      querybuf = part;
      current_state = state_head;
      bytes_expected = ghead_size;
      bytes_processed = 0;
    }
    else record c {
      querybuf = part;
      current_state = state_body;
      bytes_expected = body_len_of packet;
      bytes_processed = ghead_size;
    }

get_elem?-part :
    (part rest : List ℕ) (i : ℕ) → i < length part → get_elem? (part ++ rest) i ≡ get_elem? part i
get_elem?-part [] rest i h = absurd (omega arith)
get_elem?-part (b ∷ part) rest zero h = refl
get_elem?-part (b ∷ part) rest (suc i) h = get_elem?-part part rest i (omega arith)

-- The header is read the same from any part that has it.
byte_at-part :
    (part rest : List ℕ) (i : ℕ) → i < length part → byte_at (part ++ rest) i ≡ byte_at part i
unfolding byte_at
byte_at-part part rest i h =
    ap (λ o. elim o as (λ x. ℕ) [ none ↦ 0 | some b ↦ b ]) (get_elem?-part part rest i h)

pub get32-part :
    (part rest : List ℕ) (i : ℕ) → i + 3 < length part → get32 (part ++ rest) i ≡ get32 part i
unfolding get32
get32-part part rest i h =
    rw
      (
        byte_at-part part rest i (omega arith),
        byte_at-part part rest (i + 1) (omega arith),
        byte_at-part part rest (i + 2) (omega arith),
        byte_at-part part rest (i + 3) (omega arith),
      )
      refl

magic-part :
    (part rest : List ℕ) → 36 ≤ length part → magic_num_of (part ++ rest) ≡ magic_num_of part
unfolding magic_num_of
magic-part part rest h = get32-part part rest 24 (omega arith)

body_len-part :
    (part rest : List ℕ) → 36 ≤ length part → body_len_of (part ++ rest) ≡ body_len_of part
unfolding body_len_of
body_len-part part rest h = get32-part part rest 32 (omega arith)

-- A connection that has taken the header.
abbrev pub headed : List ℕ → List ℕ → TcpConnection → TcpConnection
headed packet part c = record c {
  querybuf = part;
  current_state = state_body;
  bytes_expected = body_len_of packet;
  bytes_processed = ghead_size;
}

-- What comes of the whole packet.
abbrev pub serve :
    {V : Type 0} → Json V → (List ℕ → List ℕ) → Bool → ℕ → List ℕ → TcpConnection → Outcome
serve json beyond sent address packet c =
    let (ok, (c', msgs)) =
      process_request json beyond sent address (take ghead_size packet) (drop ghead_size packet)
        (headed packet packet c) in
    if ok then finished (record c' { bytes_processed = 65535 }) msgs else refused msgs

pub leb-false : (a b : ℕ) → b < a → leb a b ≡ false
leb-false a b h = ground arith

pub leb-true : (a b : ℕ) → a ≤ b → leb a b ≡ true
leb-true a b h = ground arith

pub with_earlier-nil :
    (msgs : List RtcMsg) (c : TcpConnection) → with_earlier msgs (finished c []) ≡ finished c msgs
unfolding with_earlier
with_earlier-nil msgs c = ap (finished c) (append-nil msgs)

take_head-headed :
    (part rest : List ℕ) (c : TcpConnection)
    → IsPacket (part ++ rest)
    → 36 ≤ length part
    → take_head (record c {
      querybuf = part;
      current_state = state_head;
      bytes_expected = ghead_size;
      bytes_processed = 0;
    })
      ≡ some (headed (part ++ rest) part c)
unfolding take_head
take_head-headed part rest c p h =
    let magic : magic_num_of part ≡ ghead_magic_num = sym (magic-part part rest h) ∙ p.magic in
    let test : (magic_num_of part == ghead_magic_num) ≡ true = ground (arith, magic) in
    rw (test, body_len-part part rest h) refl

pub short :
    (part rest : List ℕ) (c : TcpConnection)
    → IsPacket (part ++ rest)
    → 0 < length rest
    → has_packet (headed (part ++ rest) part c) ≡ false
unfolding has_packet
short part rest c p h =
    let total : length part + length rest ≡ 36 + body_len_of (part ++ rest) =
      sym (length-append part rest) ∙ p.measured in
    leb-false (36 + body_len_of (part ++ rest)) (length part) (omega arith)

module _ {V : Type 0} (json : Json V) (beyond : List ℕ → List ℕ) (sent : Bool) (address : ℕ) where
  pub process_waits :
      (fuel : ℕ) (c : TcpConnection)
      → has_packet c ≡ false
      → process_query_buffer json beyond sent address (suc fuel) c ≡ finished c []
  unfolding process_query_buffer
  process_waits fuel c h = rw h refl

  -- The header is short, or whole.
  pub process_head :
      (fuel : ℕ) (part rest : List ℕ) (c : TcpConnection)
      → IsPacket (part ++ rest)
      → 36 ≤ length part
      → process_query_buffer json beyond sent address (suc fuel) (record c {
        querybuf = part;
        current_state = state_head;
        bytes_expected = ghead_size;
        bytes_processed = 0;
      })
        ≡ process_query_buffer json beyond sent address fuel (headed (part ++ rest) part c)
  unfolding process_query_buffer has_packet
  process_head fuel part rest c p h =
      let test : leb 36 (length part) ≡ true = leb-true 36 (length part) h in
      rw (test, take_head-headed part rest c p h) refl

  -- A part of the body is waited for.
  pub process_headed :
      (fuel : ℕ) (part rest : List ℕ) (c : TcpConnection)
      → IsPacket (part ++ rest)
      → 0 < length rest
      → process_query_buffer json beyond sent address (suc fuel) (headed (part ++ rest) part c)
        ≡ finished (headed (part ++ rest) part c) []
  process_headed fuel part rest c p h =
      process_waits fuel (headed (part ++ rest) part c) (short part rest c p h)

  abbrev Keeps : TcpConnection → Bool × (TcpConnection × List RtcMsg) → Type 0
  Keeps c r = (replies : List (List ℕ)) × (r.1.0 ≡ record c { reply_list = replies })

  if-Keeps :
      (c : TcpConnection) (b : Bool) (x y : Bool × (TcpConnection × List RtcMsg))
      → Keeps c x
      → Keeps c y
      → Keeps c (if b then x else y)
  if-Keeps c true x y h k = h
  if-Keeps c false x y h k = k

  run_command-Keeps :
      (header : List ℕ) (root : V) (cmd : ℕ) (c : TcpConnection)
      → Keeps c (run_command json beyond sent address header root cmd c)
  unfolding run_command add_reply
  run_command-Keeps header root cmd c =
      if-Keeps c (cmd == cmdno_push) _ _ (c.reply_list, refl)
        (if-Keeps c (cmd == cmdno_answer) _ _ (_, refl) (_, refl))

  -- A request changes nothing of the connection but its replies.
  pub request-keeps :
      (header body : List ℕ) (c : TcpConnection)
      → (replies : List (List ℕ)) × ((process_request json beyond sent address header body c).1.0
          ≡ record c { reply_list = replies })
  unfolding process_request
  request-keeps header body c = elim (Option-cases (command_of json beyond sent address body)) [
    | inl e ↦ rw (process_request, e) (c.reply_list, refl)
    | inr (command, e) ↦ rw (process_request, e) (run_command-Keeps header command.0 command.1 c)
  ]
