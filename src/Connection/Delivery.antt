-- ===== src/Connection/Delivery.antt =====
-- ice/ice_connection.cpp: on_read_packet, and the two handlers of a response. The log is left out.
use grtcserver.Base.{ℕ, List, [], ◌∷◌, Option, ◌==◌, ◌||◌, bytes_eq, if◌then◌else◌}
use grtcserver.Wire.{Wire}
use grtcserver.Stun.{
  StunMessage, SocketAddress, stun_binding_request, stun_binding_response,
  stun_binding_error_response, stun_error_unauthorized, stun_error_unknown_attribute,
  stun_error_server_error, stun_error_bad_request,
}
use grtcserver.Stun.Message.{get_error_code_value}
use grtcserver.Stun.Integrity.{validate_message_integrity}
use grtcserver.Requests.{
  Delivery, unknown, response, error_response, wrong_type, elapsed, check_response,
}
use grtcserver.Connection.{
  IceConnection, IceParameters, Event, connection_destroy, failed, set_state,
  received_ping_response,
}
use grtcserver.Connection.Messages.{send_stun_binding_response}
use grtcserver.Port.{
  not_stun, rejected, message, is_ok, get_stun_message, send_binding_error_response,
}

-- What comes of a packet beside the signals: it is signalled as data; a packet is sent, if it can
-- be written; or nothing.
pub data Result : Type 0 where
  read_packet : List ℕ → Result
  sent : Option (List ℕ) → Result
  nothing : Result

-- STUN_ERROR_REASON_UNAUTHORIZED and STUN_ERROR_REASON_BAD_REQUEST
abbrev pub reason_unauthorized : List ℕ
reason_unauthorized = 85 ∷ 110 ∷ 97 ∷ 117 ∷ 116 ∷ 104 ∷ 111 ∷ 114 ∷ 105 ∷ 122 ∷ 101 ∷ 100 ∷ []

abbrev pub reason_bad_request : List ℕ
reason_bad_request = 66 ∷ 97 ∷ 100 ∷ 32 ∷ 114 ∷ 101 ∷ 113 ∷ 117 ∷ 101 ∷ 115 ∷ 116 ∷ []

-- fail_and_destroy: the signal is raised by a connection that has failed.
unfoldable pub fail_and_destroy : IceConnection → IceConnection × List Event
unfolding set_state
fail_and_destroy c = let c' = (set_state failed c).0 in (c', connection_destroy c' ∷ [])

unfoldable pub on_connection_request_error_response :
    StunMessage → IceConnection → IceConnection × List Event
unfolding fail_and_destroy get_error_code_value
on_connection_request_error_response m c =
    let code = get_error_code_value m in
    if code == stun_error_unauthorized
      || (code == stun_error_unknown_attribute || code == stun_error_server_error)
    then (c, [])
    else fail_and_destroy c

-- The handler that check_response calls, at the given time.
unfoldable pub handle_response :
    (ℕ → ℕ → ℕ → ℕ) → StunMessage → ℕ → Delivery → IceConnection → IceConnection × List Event
unfolding received_ping_response on_connection_request_error_response elapsed
handle_response average m now unknown c = (c, [])
handle_response average m now (response r) c = received_ping_response average (elapsed r now) now c
handle_response average m now (error_response r) c = on_connection_request_error_response m c
handle_response average m now (wrong_type r) c = (c, [])

module _ (w : Wire) (split : ℕ → List ℕ → List (List ℕ)) (average : ℕ → ℕ → ℕ → ℕ)
    (params : IceParameters) (remote : SocketAddress) where
  -- A response, whose MESSAGE-INTEGRITY is checked first. The handlers do not read the requests, so
  -- the request may be gone before they run.
  unfoldable pub on_response :
      StunMessage → ℕ → IceConnection → Result × (IceConnection × List Event)
  unfolding is_ok validate_message_integrity check_response handle_response
  on_response m now c =
      let m' = validate_message_integrity w c.remote_candidate.password m in
      let (delivery, requests) = check_response m'.transaction_id m'.type c.requests in
      if is_ok m'.integrity
      then (nothing, handle_response average m' now delivery (record c { requests = requests }))
      else (nothing, (c, []))

  -- A message that the port passes on.
  unfoldable pub on_message :
      StunMessage → List ℕ → ℕ → IceConnection → Result × (IceConnection × List Event)
  unfolding on_response send_stun_binding_response send_binding_error_response
  on_message m remote_ufrag now c =
      if m.type == stun_binding_request
      then (if bytes_eq remote_ufrag c.remote_candidate.username
          then (sent (send_stun_binding_response w params remote m), (c, []))
          else (
            sent (
                send_binding_error_response w params m stun_error_unauthorized reason_unauthorized),
            (c, []),
          ))
      else if m.type == stun_binding_response || m.type == stun_binding_error_response
      then on_response m now c
      else (nothing, (c, []))

  unfoldable pub on_read_packet : List ℕ → ℕ → IceConnection → Result × (IceConnection × List Event)
  unfolding get_stun_message on_message send_binding_error_response
  on_read_packet input now c = elim (get_stun_message w split params input) [
    | not_stun ↦ (read_packet input, (c, []))
    | rejected m code ↦ (
      sent (
          send_binding_error_response w params m code
            (if code == stun_error_bad_request then reason_bad_request else reason_unauthorized)),
      (c, []),
    )
    | message m remote_ufrag ↦ on_message m remote_ufrag now c
  ]
