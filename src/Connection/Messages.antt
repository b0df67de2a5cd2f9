-- ===== src/Connection/Messages.antt =====
-- ice/ice_connection.cpp and ice/udp_port.cpp: the messages that a connection sends. What the
-- port gives are arguments: its ICE parameters, and its candidate's priority in the connection.
use grtcserver.Base.{ℕ, ◌*◌, ◌%◌, ◌^◌, List, [], ◌∷◌, ◌++◌, Option, none, some, bit_and, bit_or}
use grtcserver.Wire.{Wire}
use grtcserver.Stun.{
  StunMessage, SocketAddress, empty_message, stun_binding_request, stun_binding_response,
  stun_attr_username, stun_attr_ice_controlling, stun_attr_use_candidate, stun_attr_priority,
  stun_attr_xor_mapped_address, byte_string_attribute, uint32_attribute, uint64_attribute,
  xor_address_attribute,
}
use grtcserver.Stun.Message.{add_attribute, write, get_byte_string}
use grtcserver.Stun.Integrity.{add_message_integrity}
use grtcserver.Stun.Fingerprint.{add_fingerprint}
use grtcserver.Requests.{send}
use grtcserver.Connection.{IceConnection, IceParameters, mark_ping}

-- ICE_TYPE_PREFERENCE_PRFLX
abbrev pub ice_type_preference_prflx : ℕ
ice_type_preference_prflx = 110

-- UDPPort::create_stun_username
unfoldable pub create_stun_username : IceParameters → List ℕ → List ℕ
create_stun_username params remote_username = remote_username ++ (58 ∷ params.ice_ufrag)

unfoldable pub prflx_priority : IceConnection → ℕ
prflx_priority c =
    bit_or (ice_type_preference_prflx * 2 ^ 24) (bit_and c.local_priority 0x00FFFFFF) % 2 ^ 32

-- ConnectionRequest::prepare, up to the attributes that seal the message.
unfoldable pub ping_attributes : IceParameters → IceConnection → StunMessage → StunMessage
unfolding create_stun_username prflx_priority
ping_attributes params c m =
    let username =
      byte_string_attribute stun_attr_username
        (create_stun_username params c.remote_candidate.username) in
    let m1 = add_attribute (record m { type = stun_binding_request }) username in
    let m2 = add_attribute m1 (uint64_attribute stun_attr_ice_controlling 0) in
    let m3 = add_attribute m2 (byte_string_attribute stun_attr_use_candidate []) in
    add_attribute m3 (uint32_attribute stun_attr_priority (prflx_priority c))

-- The response to a request, before it is sealed.
unfoldable pub binding_response : SocketAddress → StunMessage → StunMessage
binding_response remote request =
    add_attribute
      (record empty_message {
        type = stun_binding_response;
        transaction_id = request.transaction_id;
      })
      (xor_address_attribute stun_attr_xor_mapped_address remote)

module _ (w : Wire) where
  -- What is done to every message before it is sent, with the answers ignored.
  unfoldable pub seal : List ℕ → StunMessage → StunMessage
  seal password m = (add_fingerprint w (add_message_integrity w password m).1).1

  unfoldable pub prepare : IceParameters → IceConnection → StunMessage → StunMessage
  unfolding ping_attributes seal
  prepare params c m = seal c.remote_candidate.password (ping_attributes params c m)

  -- IceConnection::ping at the given time, for a request with the given random id: the packet that
  -- is sent, if the message can be written, and the connection.
  unfoldable pub ping : IceParameters → List ℕ → ℕ → IceConnection → Option (List ℕ) × IceConnection
  unfolding prepare send mark_ping
  ping params id now c =
      let message = prepare params c (record empty_message { transaction_id = id }) in
      (
        write w message,
        record (mark_ping id now c) {
          requests = send (record { id = id; type = message.type; ts = 0 }) now c.requests;
        },
      )

  -- send_stun_binding_response, to a connection at the given remote address.
  unfoldable pub send_stun_binding_response :
      IceParameters → SocketAddress → StunMessage → Option (List ℕ)
  unfolding seal binding_response
  send_stun_binding_response params remote request =
      elim (get_byte_string request stun_attr_username) [
        | none ↦ none
        | some username ↦ write w (seal params.ice_pwd (binding_response remote request))
      ]
