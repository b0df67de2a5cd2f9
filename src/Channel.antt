-- ===== src/Channel.antt =====
-- src/ice/ice_transport_channel.h and src/ice/ice_transport_channel.cpp: what a channel does with
-- its connections and its controller, and what it tells the transport and the event loop. A
-- connection raises its signals while an operation of it runs: the channel then sees the
-- connection as the event has it, and the flag `selected` is the channel's to write.
pub mod Selected
pub mod Events
pub mod Destroyed
pub mod Packets
pub mod Observed
pub mod Agreement
pub mod Checks
pub mod History
mod Runs
use grtcserver.Base.{
  ℕ, ◌*◌, List, [], ◌∷◌, ◌++◌, Option, none, some, Bool, true, false, ◌==◌, ◌||◌, if◌then◌else◌,
  ◌>>=◌, bytes_eq,
}
use grtcserver.Wire.{Wire}
use grtcserver.Connection.{
  IceConnection, IceParameters, RemoteCandidate, Event, state_change, connection_destroy,
  is_writable, update_state, maybe_set_remote_ice_params, new_connection,
}
use grtcserver.Connection.Messages.{ping, send_stun_binding_response}
use grtcserver.Connection.Delivery.{reason_bad_request}
use grtcserver.Port.{send_binding_error_response}
use grtcserver.Stun.{StunMessage, SocketAddress, stun_attr_priority, stun_error_bad_request}
use grtcserver.Stun.Message.{get_uint32}
use grtcserver.Controller.{
  IceController, new_controller, member, PingResult, add_connection, set_selected_connection,
  mark_connection_pinged, on_connection_destroyed, has_pingable_connection,
  selected_connection_to_ping, sort_and_switch_connection, weak_ping_interval,
}

abbrev pub ping_interval_diff : ℕ
ping_interval_diff = 5

-- What the channel raises: its two signals, and its calls of start_timer and stop_timer.
pub data Signal : Type 0 where
  writable_state receiving_state : Signal
  start_timer : ℕ → Signal
  stop_timer : Signal

-- The heap has the connection at an address; `signals` is what was raised so far, in order.
pub record IceTransportChannel : Type 0 where
  pub heap : ℕ → IceConnection
  pub ice_controller : IceController
  pub ice_params : IceParameters
  pub remote_ice_params : IceParameters
  pub start_pinging : Bool
  pub last_ping_sent_ms : ℕ
  pub cur_ping_interval : ℕ
  pub selected_connection : Option ℕ
  pub writable : Bool
  pub receiving : Bool
  pub signals : List Signal

unfoldable pub new_channel : (ℕ → IceConnection) → IceParameters → IceTransportChannel
new_channel heap nothing = record {
  heap = heap;
  ice_controller = new_controller;
  ice_params = nothing;
  remote_ice_params = nothing;
  start_pinging = false;
  last_ping_sent_ms = 0;
  cur_ping_interval = weak_ping_interval;
  selected_connection = none;
  writable = false;
  receiving = false;
  signals = [];
}

unfoldable pub set_ice_params : IceParameters → IceTransportChannel → IceTransportChannel
set_ice_params params ch = record ch { ice_params = params }

-- A connection is as an operation of its own has left it.
unfoldable pub put : ℕ → IceConnection → IceTransportChannel → IceTransportChannel
put conn c ch = record ch {
  heap = λ a. if a == conn then record c { selected = (ch.heap conn).selected } else ch.heap a;
}

unfoldable pub is_same : Bool → Bool → Bool
is_same true b = b
is_same false true = false
is_same false false = true

unfoldable pub set_writable : Bool → IceTransportChannel → IceTransportChannel
unfolding is_same
set_writable b ch =
    if is_same ch.writable b
    then ch
    else record ch { writable = b; signals = ch.signals ++ writable_state ∷ [] }

unfoldable pub set_receiving : Bool → IceTransportChannel → IceTransportChannel
unfolding is_same
set_receiving b ch =
    if is_same ch.receiving b
    then ch
    else record ch { receiving = b; signals = ch.signals ++ receiving_state ∷ [] }

unfoldable pub any_receiving : (ℕ → IceConnection) → List ℕ → Bool
any_receiving heap [] = false
any_receiving heap (conn ∷ rest) = (heap conn).receiving || any_receiving heap rest

unfoldable pub selected_writable : (ℕ → IceConnection) → Option ℕ → Bool
unfolding is_writable
selected_writable heap none = false
selected_writable heap (some conn) = is_writable (heap conn)

unfoldable pub update_channel_state : IceTransportChannel → IceTransportChannel
unfolding set_writable set_receiving any_receiving selected_writable
update_channel_state ch =
    set_receiving (any_receiving ch.heap ch.ice_controller.connections)
      (set_writable (selected_writable ch.heap ch.selected_connection) ch)

unfoldable pub set_selected : Bool → ℕ → (ℕ → IceConnection) → (ℕ → IceConnection)
set_selected value conn heap =
    λ a. if a == conn then record (heap a) { selected = value } else heap a

unfoldable pub unselect : Option ℕ → (ℕ → IceConnection) → (ℕ → IceConnection)
unfolding set_selected
unselect none heap = heap
unselect (some old) heap = set_selected false old heap

-- With a null pointer, the text for the log is asked of it if there was a selected connection:
-- `none` is that access. The log is taken to be on at level INFO; where it is off, the text is not
-- made, and the channel is left without a selected connection.
unfoldable pub switch_selected_connection :
    Option ℕ → IceTransportChannel → Option IceTransportChannel
unfolding unselect set_selected set_selected_connection
switch_selected_connection (some conn) ch = some (record ch {
  selected_connection = some conn;
  heap = set_selected true conn (unselect ch.selected_connection ch.heap);
  ice_controller = set_selected_connection (some conn) ch.ice_controller;
})
switch_selected_connection none ch = elim ch.selected_connection [
  | none ↦ some ch
  | some old ↦ none
]

unfoldable pub maybe_switch_selected_connection :
    Option ℕ → IceTransportChannel → Option IceTransportChannel
unfolding switch_selected_connection
maybe_switch_selected_connection none ch = some ch
maybe_switch_selected_connection (some conn) ch = switch_selected_connection (some conn) ch

unfoldable pub maybe_start_pinging : ℕ → IceTransportChannel → IceTransportChannel
unfolding has_pingable_connection
maybe_start_pinging now ch =
    if ch.start_pinging
    then ch
    else if has_pingable_connection ch.heap now ch.ice_controller
    then record ch {
      start_pinging = true;
      signals = ch.signals ++ start_timer (ch.cur_ping_interval * 1000) ∷ [];
    }
    else ch

unfoldable pub is_selected : ℕ → Option ℕ → Bool
is_selected conn none = false
is_selected conn (some selected) = conn == selected

-- _ping_connection and mark_connection_pinged, where a connection is to be pinged: `id` is the
-- random id of the request.
unfoldable pub ping_chosen :
    ℕ → Wire → List ℕ → Option ℕ → IceTransportChannel → IceTransportChannel
ping_chosen now w id none ch = ch
ping_chosen now w id (some conn) ch =
    let ch' = put conn (ping w ch.ice_params id now (ch.heap conn)).1 ch in
    record ch' {
      last_ping_sent_ms = now;
      ice_controller = mark_connection_pinged (some conn) ch'.ice_controller;
    }

-- The timer is started again when the interval changes.
unfoldable pub set_ping_interval : ℕ → IceTransportChannel → IceTransportChannel
set_ping_interval interval ch = if ch.cur_ping_interval == interval then ch else record ch {
  cur_ping_interval = interval;
  signals = ch.signals ++ stop_timer ∷ start_timer (interval * 1000) ∷ [];
}

-- `stable_sort` is absl::c_stable_sort; the clock is read at the given time.
module _ (stable_sort : (ℕ → ℕ → Bool) → List ℕ → List ℕ) (now : ℕ) where
  unfoldable pub sort_connections_and_update_state :
      IceTransportChannel → Option IceTransportChannel
  unfolding sort_and_switch_connection maybe_switch_selected_connection update_channel_state
      maybe_start_pinging
  sort_connections_and_update_state ch =
      let (conn, k) = sort_and_switch_connection ch.heap stable_sort ch.ice_controller in
      maybe_switch_selected_connection conn (record ch { ice_controller = k }) >>= λ ch'.
      some (maybe_start_pinging now (update_channel_state ch'))

  -- _on_connection_destroyed; `none` is also the fault of the controller.
  unfoldable pub on_channel_connection_destroyed :
      ℕ → IceTransportChannel → Option IceTransportChannel
  unfolding on_connection_destroyed switch_selected_connection sort_connections_and_update_state
      update_channel_state
  on_channel_connection_destroyed conn ch = on_connection_destroyed conn ch.ice_controller >>= λ k.
      let ch' = record ch { ice_controller = k } in
      if is_selected conn ch.selected_connection
      then switch_selected_connection none ch' >>= sort_connections_and_update_state
      else some (update_channel_state ch')

  -- What the slots of the channel do with the events of a connection.
  unfoldable pub on_events : ℕ → List Event → IceTransportChannel → Option IceTransportChannel
  unfolding put sort_connections_and_update_state on_channel_connection_destroyed
  on_events conn [] ch = some ch
  on_events conn (state_change c ∷ events) ch =
      sort_connections_and_update_state (put conn c ch) >>= on_events conn events
  on_events conn (connection_destroy c ∷ events) ch =
      on_channel_connection_destroyed conn (put conn c ch) >>= on_events conn events

  -- An operation of a connection, with the slots that its signals call.
  unfoldable pub operate :
      ℕ → IceConnection × List Event → IceTransportChannel → Option IceTransportChannel
  unfolding on_events put
  operate conn result ch = on_events conn result.1 ch >>= λ ch'. some (put conn result.0 ch')

  -- _update_connection_state, which goes through a copy of the vector.
  unfoldable pub update_connections : List ℕ → IceTransportChannel → Option IceTransportChannel
  unfolding operate update_state
  update_connections [] ch = some ch
  update_connections (conn ∷ rest) ch =
      operate conn (update_state now (ch.heap conn)) ch >>= update_connections rest

  unfoldable pub on_check_and_ping :
      Wire → List ℕ → IceTransportChannel → Option IceTransportChannel
  unfolding update_connections selected_connection_to_ping ping_chosen set_ping_interval
  on_check_and_ping w id ch = update_connections ch.ice_controller.connections ch >>= λ ch'.
      let (result, k) =
        selected_connection_to_ping ch'.heap ch'.last_ping_sent_ms ping_interval_diff now
          ch'.ice_controller in
      some (
        set_ping_interval result.ping_interval
          (ping_chosen now w id result.conn (record ch' { ice_controller = k })))

  unfoldable pub set_remote_ice_params :
      IceParameters → IceTransportChannel → Option IceTransportChannel
  unfolding maybe_set_remote_ice_params member sort_connections_and_update_state
  set_remote_ice_params params ch = sort_connections_and_update_state (record ch {
    remote_ice_params = params;
    heap = λ a.
        if member a ch.ice_controller.connections
        then maybe_set_remote_ice_params params (ch.heap a)
        else ch.heap a;
  })

  -- _on_unknown_address, for a request with a PRIORITY: the new connection has a candidate with
  -- the sender's ufrag and the password that the peer has told us.
  unfoldable pub add_peer : ℕ → List ℕ → ℕ → ℕ → IceTransportChannel → Option IceTransportChannel
  unfolding new_connection add_connection sort_connections_and_update_state
  add_peer conn remote_ufrag remote_priority local_priority ch =
      let candidate : RemoteCandidate = record {
        username = remote_ufrag;
        password = ch.remote_ice_params.ice_pwd;
        priority = remote_priority;
      } in
      sort_connections_and_update_state (record ch {
        heap = λ a. if a == conn then new_connection candidate local_priority else ch.heap a;
        ice_controller = add_connection conn ch.ice_controller;
      })

  -- _on_unknown_address: the packet that is sent to the peer, if it can be written, and the channel.
  -- `conn` is the address of the new connection.
  unfoldable pub on_unknown_address :
      Wire
      → IceParameters
      → SocketAddress
      → StunMessage
      → List ℕ
      → ℕ
      → ℕ
      → IceTransportChannel
      → Option (List ℕ) × Option IceTransportChannel
  unfolding get_uint32 send_binding_error_response send_stun_binding_response add_peer
  on_unknown_address w port_params addr msg remote_ufrag conn local_priority ch =
      elim (get_uint32 msg stun_attr_priority) [
        | none ↦ (
          send_binding_error_response w port_params msg stun_error_bad_request reason_bad_request,
          some ch,
        )
        | some remote_priority ↦ (
          send_stun_binding_response w port_params addr msg,
          add_peer conn remote_ufrag remote_priority local_priority ch,
        )
      ]
