-- ===== src/Connection/Runs.antt =====
-- The theorems about connections at concrete states.
use grtcserver.Base.{
  List, replicate, ℕ, ◌+◌, ◌*◌, ◌^◌, ◌/◌, ◌≤◌, ◌<◌, ◌≡◌, ◌↔◌, ◌⊎◌, inr, refl, [], ◌∷◌, true, false,
  leb, if◌then◌else◌, arith,
}
use grtcserver.Wire.Sample.{sample_wire, sample_wire-IsWire}
use grtcserver.Stun.{not_set, StunMessage, SocketAddress, af_inet, byte_string, empty_message}
use grtcserver.Stun.Message.{write, get_byte_string}
use grtcserver.Stun.Exchange.{IsAccepted}
use grtcserver.Connection.Messages.{
  create_stun_username, prepare, seal, binding_response, send_stun_binding_response,
}
use grtcserver.Requests.{StunRequest}
use grtcserver.Connection.Accepted.{prepare-IsAccepted, send_stun_binding_response-IsAccepted}
use grtcserver.Connection.{
  IceParameters, IceConnection, SentPing, RemoteCandidate, writable, write_timeout, rank, succeeded,
  in_progress, weak, active, new_connection, mark_ping, received_ping_response, update_state,
  update_receiving, is_receiving, last_received, larger, priority, too_many_ping_fails,
  too_long_without_response, connection_write_connect_timeout, weak_connection_receive_timeout,
}
use grtcserver.Connection.Clock.{too_many_ping_fails-late}
use grtcserver.Connection.Receiving.{changed, update_receiving_lem}
use grtcserver.Connection.WriteStates.{update_state_lem}
use grtcserver.Connection.Timeout.{IsUnanswered, update_state-timeout}
use grtcserver.Connection.Response.{received_ping_response_lem}
use grtcserver.Connection.Priority.{pair_priority, smaller, priority_lem, priority-monotone}
use grtcserver.Connection.History.{
  Reachable, IsConsistent, start, tick, ping, respond, check, Reachable-IsConsistent,
}

-- An average that weighs the old value by the ratio.
sample_average : ℕ → ℕ → ℕ → ℕ
sample_average old new ratio = (ratio * old + new) / (ratio + 1)

abbrev remote : RemoteCandidate
remote = record { username = 97 ∷ []; password = 98 ∷ []; priority = 5 }

abbrev ping_at : ℕ → SentPing
ping_at time = record { id = 1 ∷ []; sent_time = time }

-- A connection that was writable and has five pings without a response.
abbrev quiet : ℕ → IceConnection
quiet time = record {
  remote_candidate = remote;
  local_priority = 7;
  write_state = writable;
  receiving = true;
  last_ping_sent = time;
  num_pings_sent = 9;
  pings_since_last_response =
      ping_at time ∷ ping_at time ∷ ping_at time ∷ ping_at time ∷ ping_at time ∷ [];
  requests = [];
  last_ping_response_received = 50;
  last_ping_received = 0;
  last_data_received = 0;
  rtt = 30;
  rtt_samples = 4;
  selected = true;
  state = in_progress;
}

too_many_ping_fails-late_example : too_many_ping_fails 5 60000 2147483649 (quiet 2147483648) ≡ true
too_many_ping_fails-late_example =
    too_many_ping_fails-late 5 60000 2147483649 (quiet 2147483648) (ping_at 2147483648)
      (omega arith) refl (omega arith) (omega arith)

update_receiving_lem_example :
    let (c', events) = update_receiving 3000 (quiet 100) in
    ((c'.receiving ≡ true) ↔ (
      (100 < 50)
      ⊎ ((0 < last_received (quiet 100))
          × (3000 < last_received (quiet 100) + weak_connection_receive_timeout))))
    × (c' ≡ record (quiet 100) { receiving = c'.receiving })
    × (events ≡ changed true c'.receiving c')
    × (update_receiving 3000 c' ≡ (c', []))
update_receiving_lem_example = update_receiving_lem 3000 (quiet 100)

update_state_lem_example :
    let c' = (update_state 6000 (quiet 100)).0 in
    (c' ≡ record (quiet 100) {
      write_state = c'.write_state;
      receiving = is_receiving 6000 (quiet 100);
    })
    × (rank writable ≤ rank c'.write_state)
    × ((c'.write_state ≡ writable)
        ⊎ (too_long_without_response connection_write_connect_timeout 6000 (quiet 100) ≡ true))
update_state_lem_example = update_state_lem 6000 (quiet 100)

quiet-IsUnanswered : IsUnanswered 70000 (quiet 100)
quiet-IsUnanswered = record {
  fifth = ping_at 100;
  enough = omega arith;
  found = refl;
  past = omega arith;
  fits = omega arith;
}

update_state-timeout_example :
    ((update_state 70000 (quiet 100)).0.write_state ≡ write_timeout)
    × (active (update_state 70000 (quiet 100)).0 ≡ false)
update_state-timeout_example =
    update_state-timeout 70000 (quiet 100) (ping_at 100)
      (ping_at 100 ∷ ping_at 100 ∷ ping_at 100 ∷ ping_at 100 ∷ []) refl (omega arith)
      (inr quiet-IsUnanswered)

received_ping_response_lem_example :
    let c' = (received_ping_response sample_average 20 120 (quiet 100)).0 in
    (c'.write_state ≡ writable)
    × (c'.state ≡ succeeded)
    × (c'.pings_since_last_response ≡ [])
    × (weak c' ≡ false)
    × ((update_state 90000 c').0.write_state ≡ writable)
received_ping_response_lem_example =
    received_ping_response_lem sample_average 20 120 90000 (quiet 100) (omega arith)

priority_lem_example :
    priority (quiet 0) + (if leb (2 ^ 31) (larger 7 5) then 2 ^ 32 else 0) ≡ pair_priority 7 5
priority_lem_example = priority_lem (quiet 0) (omega arith) (omega arith)

priority-monotone_example : priority (record (quiet 0) { local_priority = 4 }) < priority (quiet 0)
unfolding smaller larger
priority-monotone_example =
    priority-monotone (record (quiet 0) { local_priority = 4 }) (quiet 0) (omega arith)
      (omega arith) (omega arith)

abbrev history : IceConnection
history =
    (update_state 9000 (
      mark_ping (2 ∷ []) 200
        (received_ping_response sample_average 20 120
          (mark_ping (1 ∷ []) 100 (new_connection remote 7))).0)).0

history-Reachable : Reachable sample_average 9000 history
history-Reachable = check (
    tick 9000 (omega arith) (
      ping (2 ∷ []) (
        tick 200 (omega arith) (
          respond 20
            (tick 120 (omega arith) (ping (1 ∷ []) (tick 100 (omega arith) (start remote 7))))))))

Reachable-IsConsistent_example : IsConsistent 9000 history
Reachable-IsConsistent_example = Reachable-IsConsistent sample_average history-Reachable

abbrev params : IceParameters
params = record { ice_ufrag = 108 ∷ []; ice_pwd = 113 ∷ [] }

prepare-IsAccepted_example : IsAccepted sample_wire (98 ∷ []) empty_message (
    prepare sample_wire params
      (quiet 100)
      (record empty_message { transaction_id = replicate 12 7 }))
unfolding create_stun_username
prepare-IsAccepted_example =
    prepare-IsAccepted sample_wire params (quiet 100) (replicate 12 7) empty_message
      sample_wire-IsWire refl (omega arith)

abbrev asked : StunMessage
asked = record empty_message {
  attrs = record { type = 6; length = 3; value = byte_string (114 ∷ 58 ∷ 108 ∷ []) } ∷ [];
}

abbrev remote_address : SocketAddress
remote_address = record { family = af_inet; port = 5000; host = 10 ∷ 0 ∷ 0 ∷ 7 ∷ [] }

send_stun_binding_response-IsAccepted_example :
    (send_stun_binding_response sample_wire params remote_address asked
      ≡ write sample_wire (seal sample_wire (113 ∷ []) (binding_response remote_address asked)))
    × IsAccepted sample_wire
        (113 ∷ [])
        empty_message
        (seal sample_wire (113 ∷ []) (binding_response remote_address asked))
unfolding get_byte_string empty_message
send_stun_binding_response-IsAccepted_example =
    send_stun_binding_response-IsAccepted sample_wire params remote_address asked empty_message
      (114 ∷ 58 ∷ 108 ∷ []) sample_wire-IsWire refl refl refl refl

-- An error response, code 500, sealed with the password "p".
abbrev refusal : List ℕ
refusal =
    1 ∷ 17 ∷ 0 ∷ 44 ∷ 33 ∷ 18 ∷ 164 ∷ 66 ∷ 7 ∷ 7 ∷ 7 ∷ 7 ∷ 7 ∷ 7 ∷ 7 ∷ 7 ∷ 7 ∷ 7 ∷ 7 ∷ 7 ∷ 0 ∷ 9 ∷ 0
    ∷ 5 ∷ 0 ∷ 0 ∷ 5 ∷ 0 ∷ 83 ∷ 0 ∷ 0 ∷ 0 ∷ 0 ∷ 8 ∷ 0 ∷ 20 ∷ 121 ∷ 121 ∷ 121 ∷ 121 ∷ 121 ∷ 121 ∷ 121
    ∷ 121 ∷ 121 ∷ 121 ∷ 121 ∷ 121 ∷ 121 ∷ 121 ∷ 121 ∷ 121 ∷ 121 ∷ 121 ∷ 121 ∷ 121 ∷ 128 ∷ 40 ∷ 0 ∷ 4
    ∷ 83 ∷ 84 ∷ 94 ∷ 239 ∷ []

abbrev refusal_read : StunMessage
refusal_read = record {
  type = 273;
  length = 44;
  transaction_id = replicate 12 7;
  attrs = record { type = 8; length = 20; value = byte_string (replicate 20 121) } ∷ [];
  integrity = not_set;
  password = [];
  buffer = refusal;
}

abbrev ping_request : StunRequest
ping_request = record { id = replicate 12 7; type = 1; ts = 90 }

abbrev asking : IceConnection
asking = record (quiet 100) {
  remote_candidate = record remote { password = 112 ∷ [] };
  requests = (replicate 12 7, ping_request) ∷ [];
}

abbrev whole : ℕ → List ℕ → List (List ℕ)
whole separator bytes = bytes ∷ []
