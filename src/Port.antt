-- ===== src/Port.antt =====
-- ice/udp_port.h and ice/udp_port.cpp: how a port takes a packet for a STUN message, and the error
-- response that it sends. `split` is rtc::split, of rtc_base.
pub mod Authenticated
mod Runs
use grtcserver.Base.{
  ℕ, List, [], ◌∷◌, Option, none, some, Bool, true, false, not, ◌==◌, ◌||◌, bytes_eq, if◌then◌else◌,
}
use grtcserver.Wire.{Wire}
use grtcserver.Stun.{
  StunMessage, IntegrityStatus, integrity_ok, empty_message, stun_binding_request,
  stun_binding_error_response, stun_attr_username, stun_attr_message_integrity,
  stun_error_bad_request, stun_error_unauthorized, error_code_attribute,
}
use grtcserver.Stun.Message.{add_attribute, get_byte_string, read, write}
use grtcserver.Stun.Fingerprint.{validate_fingerprint, add_fingerprint}
use grtcserver.Stun.Integrity.{validate_message_integrity, add_message_integrity}
use grtcserver.Connection.{IceParameters}

-- What get_stun_message makes of a packet: no STUN message (it answers false); a request that it
-- answers with an error (it answers true, with no message); or a message with the sender's ufrag.
pub data Packet : Type 0 where
  not_stun : Packet
  rejected : StunMessage → ℕ → Packet
  message : StunMessage → List ℕ → Packet

unfoldable pub is_ok : IntegrityStatus → Bool
is_ok status = elim status [ integrity_ok ↦ true | _ ↦ false ]

unfoldable pub is_some : Option (List ℕ) → Bool
is_some none = false
is_some (some bytes) = true

-- The two fields of the user name, if there are two.
unfoldable pub two_fields : List (List ℕ) → Option (List ℕ × List ℕ)
two_fields (local ∷ remote ∷ []) = some (local, remote)
two_fields _ = none

unfoldable pub parse_stun_username :
    (ℕ → List ℕ → List (List ℕ)) → StunMessage → Option (List ℕ × List ℕ)
unfolding two_fields
parse_stun_username split m = elim (get_byte_string m stun_attr_username) [
  | none ↦ none
  | some username ↦ two_fields (split 58 username)
]

module _ (w : Wire) (split : ℕ → List ℕ → List (List ℕ)) where
  -- The tests on a binding request, once its user name is parsed.
  unfoldable pub check_request : IceParameters → StunMessage → Option (List ℕ × List ℕ) → Packet
  unfolding is_ok
  check_request params m none = rejected m stun_error_unauthorized
  check_request params m (some (local, remote)) =
      let m' = validate_message_integrity w params.ice_pwd m in
      if not (bytes_eq local params.ice_ufrag)
      then rejected m stun_error_unauthorized
      else if is_ok m'.integrity
      then message m' remote
      else rejected m' stun_error_unauthorized

  unfoldable pub classify : IceParameters → StunMessage → Packet
  unfolding is_some check_request parse_stun_username
  classify params m =
      if not (m.type == stun_binding_request)
      then message m []
      else if not (is_some (get_byte_string m stun_attr_username))
          || not (is_some (get_byte_string m stun_attr_message_integrity))
      then rejected m stun_error_bad_request
      else check_request params m (parse_stun_username split m)

  unfoldable pub get_stun_message : IceParameters → List ℕ → Packet
  unfolding classify
  get_stun_message params input =
      if validate_fingerprint w input
      then elim (read w empty_message input) [ none ↦ not_stun | some m ↦ classify params m ]
      else not_stun

-- The response of send_binding_error_response, before it is sealed.
unfoldable pub error_response_of : StunMessage → ℕ → List ℕ → StunMessage
error_response_of request err_code reason =
    add_attribute
      (record empty_message {
        type = stun_binding_error_response;
        transaction_id = request.transaction_id;
      })
      (error_code_attribute err_code reason)

-- The packet that send_binding_error_response sends.
unfoldable pub send_binding_error_response :
    Wire → IceParameters → StunMessage → ℕ → List ℕ → Option (List ℕ)
unfolding error_response_of
send_binding_error_response w params request err_code reason =
    let response = error_response_of request err_code reason in
    let signed =
      if err_code == stun_error_bad_request || err_code == stun_error_unauthorized
      then response
      else (add_message_integrity w params.ice_pwd response).1 in
    write w (add_fingerprint w signed).1
