-- ===== src/Signaling/Replies.antt =====
-- What is written to a connection.
use grtcserver.Base.{
  ℕ, zero, suc, ◌+◌, ◌^◌, ◌≤◌, ◌<◌, ◌≡◌, ◌∙◌, refl, sym, ap, List, [], ◌∷◌, ◌++◌, none, some, true,
  leb, ltb, ◌==◌, length, take, drop, get_elem?, arith, Bool-cases, inl, inr, append-nil,
  append_assoc, length-append, length-take, length-drop, drop-append, drop-drop,
}
use grtcserver.Signaling.{
  ghead_size, ghead_magic_num, max_res_buf, Write, failed, wrote, Written, closed, writing, written,
  with_sent, write_loop, byte_at, get32, le32, magic_num_of, body_len_of, log_id_of, frame,
}
use grtcserver.Signaling.Framing.{IsPacket, get32-part}
use grtcserver.Signaling.Pieces.{concat}

-- The bytes that have still to be written.
abbrev pub pending : List (List ℕ) → ℕ → List ℕ
pending [] pos = []
pending (reply ∷ replies) pos = drop pos reply ++ concat replies

-- What was written is the beginning of what had to be.
abbrev pub Sends : List (List ℕ) → ℕ → Written → Type 0
Sends replies pos (closed bytes) = (rest : List ℕ) × (bytes ++ rest ≡ pending replies pos)
Sends replies pos (writing bytes more pos') = bytes ++ pending more pos' ≡ pending replies pos
Sends replies pos (written bytes more pos') = (bytes ≡ pending replies pos) × (more ≡ [])

drop-zero : (xs : List ℕ) → drop 0 xs ≡ xs
drop-zero xs = refl

pending-zero : (replies : List (List ℕ)) → pending replies 0 ≡ concat replies
pending-zero [] = refl
pending-zero (reply ∷ replies) = refl

take-drop : (n : ℕ) (xs : List ℕ) → take n xs ++ drop n xs ≡ xs
take-drop zero xs = refl
take-drop (suc n) [] = refl
take-drop (suc n) (x ∷ xs) = ap (◌∷◌ x) (take-drop n xs)

drop-beyond : (n : ℕ) (xs : List ℕ) → length xs ≤ n → drop n xs ≡ []
drop-beyond zero [] h = refl
drop-beyond zero (x ∷ xs) h = absurd (omega arith)
drop-beyond (suc n) [] h = refl
drop-beyond (suc n) (x ∷ xs) h = drop-beyond n xs (omega arith)

-- Bytes before what a later write sends.
with_sent-Sends :
    (bytes : List ℕ) (replies later : List (List ℕ)) (pos pos' : ℕ) (o : Written)
    → bytes ++ pending later pos' ≡ pending replies pos
    → Sends later pos' o
    → Sends replies pos (with_sent bytes o)
unfolding with_sent
with_sent-Sends bytes replies later pos pos' (closed more) h (rest, e) =
    (rest, append_assoc bytes more rest ∙ ap (◌++◌ bytes) e ∙ h)
with_sent-Sends bytes replies later pos pos' (writing more rs p) h e =
    append_assoc bytes more (pending rs p) ∙ ap (◌++◌ bytes) e ∙ h
with_sent-Sends bytes replies later pos pos' (written more rs p) h (e, nil) =
    (ap (◌++◌ bytes) e ∙ h, nil)

part-sent :
    (n pos : ℕ) (reply more : List ℕ)
    → take n (drop pos reply) ++ (drop (pos + n) reply ++ more) ≡ drop pos reply ++ more
part-sent n pos reply more =
    let split : drop (pos + n) reply ≡ drop n (drop pos reply) = drop-drop pos n reply in
    rw split (
      sym (append_assoc (take n (drop pos reply)) (drop n (drop pos reply)) more)
      ∙ ap (λ l. l ++ more) (take-drop n (drop pos reply)))

rest-sent :
    (n pos : ℕ) (reply : List ℕ) (replies : List (List ℕ))
    → length reply ≤ n + pos
    → take n (drop pos reply) ++ pending replies 0 ≡ drop pos reply ++ concat replies
rest-sent n pos reply replies h =
    let left : length (drop pos reply) ≤ n = omega (arith, length-drop pos reply) in
    let all : take n (drop pos reply) ≡ drop pos reply =
      sym (append-nil (take n (drop pos reply)))
      ∙ ap (◌++◌ (take n (drop pos reply))) (sym (drop-beyond n (drop pos reply) left))
      ∙ take-drop n (drop pos reply) in
    rw (all, pending-zero replies) refl

-- Whatever the writes answer: the bytes that _write_reply has written are the beginning of the
-- replies that were pending, in order; when its loop ends they are all of them; and while it goes
-- on, what is pending still follows them.
pub write_loop-Sends :
    (answers : List Write) (replies : List (List ℕ)) (pos : ℕ)
    → Sends replies pos (write_loop answers replies pos)
unfolding write_loop
write_loop-Sends [] [] pos = (refl, refl)
write_loop-Sends (a ∷ answers) [] pos = (refl, refl)
write_loop-Sends [] (reply ∷ replies) pos = refl
write_loop-Sends (failed ∷ answers) (reply ∷ replies) pos = (pending (reply ∷ replies) pos, refl)
write_loop-Sends (wrote n ∷ answers) (reply ∷ replies) pos = elim (Bool-cases (n == 0)) [
  | inl e ↦ rw e (write_loop-Sends answers (reply ∷ replies) pos)
  | inr e ↦ elim (Bool-cases (leb (length reply) (n + pos))) [
    | inl f ↦
        rw (e, f)
          (with_sent-Sends (take n (drop pos reply)) (reply ∷ replies) replies pos 0
            (write_loop answers replies 0) (rest-sent n pos reply replies (ground arith))
            (write_loop-Sends answers replies 0))
    | inr f ↦
        rw (e, f)
          (with_sent-Sends (take n (drop pos reply)) (reply ∷ replies) (reply ∷ replies) pos
            (pos + n) (write_loop answers (reply ∷ replies) (pos + n))
            (part-sent n pos reply (concat replies))
            (write_loop-Sends answers (reply ∷ replies) (pos + n)))
  ]
]

get_elem?-after : (p q : List ℕ) (i k : ℕ) → length p + i ≡ k → get_elem? (p ++ q) k ≡ get_elem? q i
get_elem?-after [] q i k h = let e : k ≡ i = omega arith in rw e refl
get_elem?-after (x ∷ p) q i zero h = absurd (omega arith)
get_elem?-after (x ∷ p) q i (suc k) h = get_elem?-after p q i k (omega arith)

byte_at-after : (p q : List ℕ) (i k : ℕ) → length p + i ≡ k → byte_at (p ++ q) k ≡ byte_at q i
unfolding byte_at
byte_at-after p q i k h =
    ap (λ o. elim o as (λ x. ℕ) [ none ↦ 0 | some b ↦ b ]) (get_elem?-after p q i k h)

get32-after : (p q : List ℕ) (k : ℕ) → length p ≡ k → get32 (p ++ q) k ≡ get32 q 0
unfolding get32
get32-after p q k h =
    rw
      (
        byte_at-after p q 0 k (omega arith),
        byte_at-after p q 1 (k + 1) (omega arith),
        byte_at-after p q 2 (k + 2) (omega arith),
        byte_at-after p q 3 (k + 3) (omega arith),
      )
      refl

get32-le32 : (n : ℕ) (text : List ℕ) → n < 2 ^ 32 → get32 (le32 n ++ text) 0 ≡ n
unfolding get32 byte_at le32
get32-le32 n text h = omega arith

-- The fields before the length are those of the header.
get32-header :
    (header more : List ℕ) (i : ℕ)
    → length header ≡ 36
    → i < 29
    → get32 (take 32 header ++ more) i ≡ get32 header i
get32-header header more i h k =
    let p : List ℕ = take 32 header in
    let n : length p ≡ 32 = length-take 32 header (omega arith) in
    get32-part p more i (omega arith)
    ∙ sym (get32-part p (drop 32 header) i (omega arith))
    ∙ ap (λ l. get32 l i) (take-drop 32 header)

length_le32 : (n : ℕ) (text : List ℕ) → length (le32 n ++ text) ≡ 4 + length text
unfolding le32
length_le32 n text = omega arith

-- A response with a text of less than 4096 bytes, built on a header with the magic number, is
-- itself a packet: its header announces the text that follows, and has the log id of the request.
pub frame-IsPacket :
    (beyond : List ℕ → List ℕ) (header text : List ℕ)
    → length header ≡ ghead_size
    → magic_num_of header ≡ ghead_magic_num
    → length text < max_res_buf
    → IsPacket (frame beyond header text)
      × (drop ghead_size (frame beyond header text) ≡ text)
      × (log_id_of (frame beyond header text) ≡ log_id_of header)
unfolding frame magic_num_of log_id_of body_len_of
frame-IsPacket beyond header text h m t =
    let p : List ℕ = take 32 header in
    let n : length p ≡ 32 = length-take 32 header (omega arith) in
    let four : List ℕ = le32 (length text) in
    let whole : frame beyond header text ≡ p ++ (four ++ text) =
      (let test : ltb (length text) 4096 ≡ true = ground arith in
        rw test (append_assoc p four text)) in
    let len : get32 (p ++ (four ++ text)) 32 ≡ length text =
      get32-after p (four ++ text) 32 n ∙ get32-le32 (length text) text (omega arith) in
    let size : length (p ++ (four ++ text)) ≡ 36 + length text =
      length-append p (four ++ text) ∙ (omega (arith, n, length_le32 (length text) text)) in
    rw whole (
      record {
        magic = get32-header header (four ++ text) 24 h (omega arith) ∙ m;
        measured = size ∙ ap (◌+◌ 36) (sym len);
      },
      sym (ap (drop 36) (append_assoc p four text))
          ∙ drop-append 36 (p ++ four) text
              (length-append p four ∙ omega (arith, n, length_le32 (length text) [])),
      get32-header header (four ++ text) 4 h (omega arith),
    )
