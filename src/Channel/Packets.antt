-- ===== src/Channel/Packets.antt =====
-- What on_read_packet of a connection does, as its channel sees it.
use grtcserver.Base.{
  ℕ, ◌≡◌, refl, sym, List, [], ◌∷◌, Bool, true, false, ◌⊎◌, inl, inr, if◌then◌else◌, ◌==◌, ◌||◌,
  bytes_eq,
}
use grtcserver.Wire.{Wire}
use grtcserver.Stun.{
  StunMessage, SocketAddress, stun_binding_request, stun_binding_response,
  stun_binding_error_response, stun_error_unauthorized, stun_error_unknown_attribute,
  stun_error_server_error, stun_error_bad_request,
}
use grtcserver.Stun.Message.{get_error_code_value}
use grtcserver.Stun.Integrity.{validate_message_integrity}
use grtcserver.Requests.{
  Delivery, unknown, response, error_response, wrong_type, elapsed, check_response,
}
use grtcserver.Port.{
  Packet, not_stun, rejected, message, is_ok, get_stun_message, send_binding_error_response,
}
use grtcserver.Connection.{IceConnection, IceParameters, Event, connection_destroy, set_state}
use grtcserver.Connection.Delivery.{
  Result, nothing, sent, read_packet, reason_bad_request, reason_unauthorized, fail_and_destroy,
  on_connection_request_error_response, handle_response, on_response, on_message, on_read_packet,
}
use grtcserver.Channel.Events.{Same, Same-trans, Tells, Tells-Same, received_ping_response-Tells}

-- It tells of its changes, or the connection is destroyed and has told of nothing else.
abbrev pub Answers : IceConnection → IceConnection × List Event → Type 0
Answers c (last, events) =
    Tells c last events ⊎ (Same last c × (events ≡ connection_destroy last ∷ []))

Answers-Same :
    (a b : IceConnection) (r : IceConnection × List Event) → Same a b → Answers b r → Answers a r
Answers-Same a b r h (inl t) = inl (Tells-Same a b r.0 r.1 h t)
Answers-Same a b r h (inr (s, e)) = inr (Same-trans r.0 b a s (sym h.0, sym h.1), e)

if-both : {X : Type 0} (P : X → Type 0) (b : Bool) (x y : X) → P x → P y → P (if b then x else y)
if-both P true x y h k = h
if-both P false x y h k = k

fail_and_destroy-Answers : (c : IceConnection) → Answers c (fail_and_destroy c)
unfolding fail_and_destroy set_state
fail_and_destroy-Answers c = inr ((refl, refl), refl)

error-Answers :
    (m : StunMessage) (c : IceConnection) → Answers c (on_connection_request_error_response m c)
unfolding on_connection_request_error_response
error-Answers m c =
    let code : ℕ = get_error_code_value m in
    if-both (λ r. Answers c r)
      (code == stun_error_unauthorized
        || (code == stun_error_unknown_attribute || code == stun_error_server_error))
      (c, []) (fail_and_destroy c) (inl (refl, refl)) (fail_and_destroy-Answers c)

handle_response-Answers :
    (average : ℕ → ℕ → ℕ → ℕ) (m : StunMessage) (now : ℕ) (d : Delivery) (c : IceConnection)
    → Answers c (handle_response average m now d c)
unfolding handle_response
handle_response-Answers average m now unknown c = inl (refl, refl)
handle_response-Answers average m now (response r) c =
    inl (received_ping_response-Tells average (elapsed r now) now c)
handle_response-Answers average m now (error_response r) c = error-Answers m c
handle_response-Answers average m now (wrong_type r) c = inl (refl, refl)

module _ (w : Wire) (split : ℕ → List ℕ → List (List ℕ)) (average : ℕ → ℕ → ℕ → ℕ)
    (params : IceParameters) (remote : SocketAddress) where
  abbrev Reaction : Type 0
  Reaction = Result × (IceConnection × List Event)

  on_response-Answers :
      (m : StunMessage) (now : ℕ) (c : IceConnection)
      → Answers c (on_response w split average params remote m now c).1
  unfolding on_response
  on_response-Answers m now c =
      let m' : StunMessage = validate_message_integrity w c.remote_candidate.password m in
      let (delivery, requests) = check_response m'.transaction_id m'.type c.requests in
      let c' : IceConnection = record c { requests = requests } in
      if-both (λ (r : Reaction). Answers c r.1) (is_ok m'.integrity)
        (nothing, handle_response average m' now delivery c') (nothing, (c, []))
        (Answers-Same c c' (handle_response average m' now delivery c') (refl, refl)
          (handle_response-Answers average m' now delivery c'))
        (inl (refl, refl))

  on_message-Answers :
      (m : StunMessage) (remote_ufrag : List ℕ) (now : ℕ) (c : IceConnection)
      → Answers c (on_message w split average params remote m remote_ufrag now c).1
  unfolding on_message
  on_message-Answers m remote_ufrag now c =
      let P : Reaction → Type 0 = λ r. Answers c r.1 in
      if-both P (m.type == stun_binding_request) _ _
        (if-both P (bytes_eq remote_ufrag c.remote_candidate.username) _ _ (inl (refl, refl))
          (inl (refl, refl)))
        (if-both P (m.type == stun_binding_response || m.type == stun_binding_error_response) _ _
          (on_response-Answers m now c) (inl (refl, refl)))

  by_packet :
      (p : Packet) (input : List ℕ) (now : ℕ) (c : IceConnection) (error : StunMessage → ℕ → Result)
      → let r : Reaction = elim p [
        | not_stun ↦ (read_packet input, (c, []))
        | rejected m code ↦ (error m code, (c, []))
        | message m remote_ufrag ↦ on_message w split average params remote m remote_ufrag now c
      ] in
        Answers c r.1
  by_packet not_stun input now c error = inl (refl, refl)
  by_packet (rejected m code) input now c error = inl (refl, refl)
  by_packet (message m remote_ufrag) input now c error = on_message-Answers m remote_ufrag now c

  pub on_read_packet-Answers :
      (input : List ℕ) (now : ℕ) (c : IceConnection)
      → Answers c (on_read_packet w split average params remote input now c).1
  unfolding on_read_packet
  on_read_packet-Answers input now c =
      by_packet (get_stun_message w split params input) input now c (λ m code. sent (
        send_binding_error_response w params m code
          (if code == stun_error_bad_request then reason_bad_request else reason_unauthorized)))
