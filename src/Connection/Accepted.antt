-- ===== src/Connection/Accepted.antt =====
-- The messages of a connection are accepted by a peer that knows the password.
use grtcserver.Base.{ℕ, ◌+◌, ◌%◌, ◌^◌, ◌≤◌, ◌<◌, ◌≡◌, refl, some, List, [], arith, length}
use grtcserver.Wire.{Wire, IsWire}
use grtcserver.Stun.{
  StunMessage, empty_message, padded, byte_string_attribute, uint32_attribute, uint64_attribute,
  stun_attr_username, stun_attr_ice_controlling, stun_attr_use_candidate, stun_attr_priority,
  stun_attr_message_integrity, stun_binding_request, stun_binding_response,
  stun_attr_xor_mapped_address, xor_address_attribute, address_length, SocketAddress, af_inet,
}
use grtcserver.Stun.Message.{add_attribute, write, get_byte_string, get_attribute_value_type}
use grtcserver.Stun.Layout.{IsSound, IsValid}
use grtcserver.Stun.Search.{Lacks}
use grtcserver.Stun.Exchange.{IsAccepted, validate-add_message_integrity}
use grtcserver.Connection.{IceConnection, IceParameters}
use grtcserver.Connection.Messages.{
  binding_response, send_stun_binding_response, create_stun_username, prflx_priority,
  ping_attributes, seal, prepare,
}

padded_bound : (n : ℕ) → padded n < n + 4
unfolding padded
padded_bound n = ground arith

username-IsSound :
    (bytes : List ℕ)
    → length bytes ≤ 1000
    → IsSound (byte_string_attribute stun_attr_username bytes)
unfolding byte_string_attribute get_attribute_value_type
username-IsSound bytes h = record {
  type_fits = omega arith;
  length_fits = omega arith;
  fit = (omega arith, λ e. cc);
}

controlling-IsSound : IsSound (uint64_attribute stun_attr_ice_controlling 0)
unfolding uint64_attribute get_attribute_value_type
controlling-IsSound = record {
  type_fits = omega arith;
  length_fits = omega arith;
  fit = (refl, refl);
}

use_candidate-IsSound : IsSound (byte_string_attribute stun_attr_use_candidate [])
unfolding byte_string_attribute get_attribute_value_type
use_candidate-IsSound = record {
  type_fits = omega arith;
  length_fits = omega arith;
  fit = (refl, λ e. cc);
}

priority-IsSound :
    (c : IceConnection) → IsSound (uint32_attribute stun_attr_priority (prflx_priority c))
unfolding uint32_attribute get_attribute_value_type prflx_priority
priority-IsSound c = record {
  type_fits = omega arith;
  length_fits = omega arith;
  fit = (refl, omega arith, λ e. cc);
}

fixed_sizes : (padded 8 ≡ 8) × (padded 0 ≡ 0) × (padded 4 ≡ 4)
unfolding padded
fixed_sizes = (refl, refl, refl)

attributes-IsValid :
    (params : IceParameters) (c : IceConnection) (id : List ℕ)
    → length id ≡ 12
    → length (create_stun_username params c.remote_candidate.username) ≤ 1000
    → let m = ping_attributes params c (record empty_message { transaction_id = id }) in
      IsValid m
      × (m.length ≤ 1040)
      × (m.type ≡ stun_binding_request)
      × Lacks stun_attr_message_integrity m.attrs
unfolding ping_attributes empty_message add_attribute byte_string_attribute uint64_attribute
    uint32_attribute
attributes-IsValid params c id h k =
    let name : List ℕ = create_stun_username params c.remote_candidate.username in
    let small : length name % 2 ^ 16 ≡ length name = omega arith in
    let bound : padded (length name % 2 ^ 16) < length name % 2 ^ 16 + 4 =
      padded_bound (length name % 2 ^ 16) in
    let (eight, none_, four) = fixed_sizes in
    (
      record {
        sound = (
          username-IsSound name k,
          (controlling-IsSound, (use_candidate-IsSound, (priority-IsSound c, tt))),
        );
        sized = omega arith;
        fits = omega arith;
        type_fits = omega arith;
        id_length = h;
      },
      omega arith,
      refl,
      ((λ e. omega arith), ((λ e. omega arith), ((λ e. omega arith), ((λ e. omega arith), tt)))),
    )

-- Every ping of a connection, whatever its state, whose user name has at most 1000 bytes and
-- whose random id has 12, is written, passes validate_fingerprint, is read back, and has its
-- MESSAGE-INTEGRITY accepted by a peer that knows the password of the remote candidate.
pub prepare-IsAccepted :
    (w : Wire) (params : IceParameters) (c : IceConnection) (id : List ℕ) (fresh : StunMessage)
    → IsWire w
    → length id ≡ 12
    → length (create_stun_username params c.remote_candidate.username) ≤ 1000
    → IsAccepted w c.remote_candidate.password fresh
        (prepare w params c (record empty_message { transaction_id = id }))
unfolding prepare seal
prepare-IsAccepted w params c id fresh laws h k =
    let (valid, small, type, lacks) = attributes-IsValid params c id h k in
    validate-add_message_integrity w laws c.remote_candidate.password
      (ping_attributes params c (record empty_message { transaction_id = id })) fresh valid lacks
      (omega arith) (rw type refl)

address-IsSound :
    (remote : SocketAddress)
    → remote.family ≡ af_inet
    → length remote.host ≡ 4
    → IsSound (xor_address_attribute stun_attr_xor_mapped_address remote)
unfolding xor_address_attribute address_length get_attribute_value_type
address-IsSound remote f h =
    let eight : address_length remote.family ≡ 8 = rw f refl in
    record { type_fits = omega arith; length_fits = omega arith; fit = (f, h, eight, refl) }

response-IsValid :
    (remote : SocketAddress) (request : StunMessage)
    → length request.transaction_id ≡ 12
    → remote.family ≡ af_inet
    → length remote.host ≡ 4
    → let m = binding_response remote request in
      IsValid m
      × (m.length ≤ 12)
      × (m.type ≡ stun_binding_response)
      × Lacks stun_attr_message_integrity m.attrs
unfolding binding_response empty_message add_attribute xor_address_attribute address_length
response-IsValid remote request h f k =
    let eight : address_length remote.family ≡ 8 = rw f refl in
    let (size, _, _) = fixed_sizes in
    let size' : padded (address_length remote.family) ≡ 8 = rw eight size in
    (
      record {
        sound = (address-IsSound remote f k, tt);
        sized = omega arith;
        fits = omega arith;
        type_fits = omega arith;
        id_length = h;
      },
      omega arith,
      refl,
      ((λ e. omega arith), tt),
    )

-- A binding request with a user name and a transaction id of 12 bytes, from an IPv4 address, is
-- answered: the bytes sent pass validate_fingerprint, are read back, and have their
-- MESSAGE-INTEGRITY accepted by a peer that knows our password.
pub send_stun_binding_response-IsAccepted :
    (w : Wire) (params : IceParameters) (remote : SocketAddress) (request fresh : StunMessage)
    (username : List ℕ)
    → IsWire w
    → get_byte_string request stun_attr_username ≡ some username
    → length request.transaction_id ≡ 12
    → remote.family ≡ af_inet
    → length remote.host ≡ 4
    → (send_stun_binding_response w params remote request
        ≡ write w (seal w params.ice_pwd (binding_response remote request)))
      × IsAccepted w params.ice_pwd fresh (seal w params.ice_pwd (binding_response remote request))
unfolding send_stun_binding_response seal
send_stun_binding_response-IsAccepted w params remote request fresh username laws u h f k =
    let (valid, small, type, lacks) = response-IsValid remote request h f k in
    (
      rw (send_stun_binding_response, u) refl,
      validate-add_message_integrity w laws params.ice_pwd (binding_response remote request) fresh
          valid lacks (omega arith) (rw type refl),
    )
