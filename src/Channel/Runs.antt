-- ===== src/Channel/Runs.antt =====
-- The theorems about the channel, on a peer that sends its first request.
use grtcserver.Base.{ℕ, ◌≡◌, refl, List, [], ◌∷◌, none, some, true, false, if◌then◌else◌, ◌==◌}
use grtcserver.Wire.Sample.{sample_wire}
use grtcserver.Stun.{
  StunMessage, SocketAddress, af_inet, empty_message, uint32_attribute, stun_attr_priority,
}
use grtcserver.Stun.Message.{add_attribute}
use grtcserver.Connection.{IceConnection, IceParameters, new_connection}
use grtcserver.Controller.{member, new_controller}
use grtcserver.Controller.Sample.{sample_sort, sample_sort-IsSort}
use grtcserver.Channel.{
  IceTransportChannel, start_timer, new_channel, on_check_and_ping, on_unknown_address,
  on_channel_connection_destroyed, set_remote_ice_params,
}
use grtcserver.Channel.Agreement.{IsSettled, Settles}
use grtcserver.Channel.Destroyed.{selected_destroyed-none}
use grtcserver.Channel.Checks.{on_check_and_ping-IsSettled}
use grtcserver.Channel.History.{Reachable, start, unknown, remote, Reachable-IsSettled}

abbrev nobody : IceParameters
nobody = record { ice_ufrag = []; ice_pwd = [] }

abbrev no_heap : ℕ → IceConnection
no_heap = λ a. new_connection (record { username = []; password = []; priority = 0 }) 0

abbrev peer : SocketAddress
peer = record { family = af_inet; port = 9000; host = 10 ∷ 0 ∷ 0 ∷ 1 ∷ [] }

abbrev request : StunMessage
request = add_attribute empty_message (uint32_attribute stun_attr_priority 5)

abbrev sample_split : ℕ → List ℕ → List (List ℕ)
sample_split c bytes = bytes ∷ []

abbrev sample_average : ℕ → ℕ → ℕ → ℕ
sample_average old new ratio = new

abbrev peer_channel : IceTransportChannel
peer_channel = record (new_channel no_heap nobody) {
  remote_ice_params = record { ice_ufrag = 97 ∷ []; ice_pwd = 98 ∷ [] };
  heap = λ a.
      if a == 1
      then new_connection (record { username = 97 ∷ []; password = 98 ∷ []; priority = 5 }) 7
      else no_heap a;
  ice_controller = record {
    selected_connection = none;
    connections = 1 ∷ [];
    unpinged_connections = 1 ∷ [];
    pinged_connections = [];
  };
  start_pinging = true;
  signals = start_timer 48000 ∷ [];
}

abbrev first_channel : IceTransportChannel
first_channel = new_channel no_heap nobody

abbrev partner : IceParameters
partner = record { ice_ufrag = 97 ∷ []; ice_pwd = 98 ∷ [] }

abbrev told_channel : IceTransportChannel
told_channel = record first_channel { remote_ice_params = partner }

answer_comes : set_remote_ice_params sample_sort 5 partner first_channel ≡ some told_channel
unfolding new_channel new_controller set_remote_ice_params sample_sort
answer_comes = refl

unknown_to_it : member 1 told_channel.ice_controller.connections ≡ false
unfolding new_channel new_controller member
unknown_to_it = refl

request_comes :
    (on_unknown_address sample_sort 10 sample_wire nobody peer request (97 ∷ []) 1 7 told_channel).1
    ≡ some peer_channel
unfolding new_channel new_controller new_connection on_unknown_address add_attribute
    uint32_attribute empty_message sample_sort
request_comes = refl

reached : Reachable sample_sort sample_wire sample_split sample_average peer_channel
unfolding new_connection
reached =
    let from : Reachable sample_sort sample_wire sample_split sample_average first_channel =
      start no_heap nobody (λ x. refl) in
    let told : Reachable sample_sort sample_wire sample_split sample_average told_channel =
      remote 5 partner answer_comes from in
    unknown {ch = told_channel} {ch' = peer_channel} 10 nobody peer request (97 ∷ []) 1 7
      unknown_to_it request_comes told

peer-IsSettled : IsSettled peer_channel
peer-IsSettled =
    Reachable-IsSettled sample_sort sample_sort-IsSort sample_wire sample_split sample_average
      reached

Reachable-IsSettled_example : IsSettled peer_channel
Reachable-IsSettled_example =
    Reachable-IsSettled sample_sort sample_sort-IsSort sample_wire sample_split sample_average
      reached

peer_starts : peer_channel.start_pinging ≡ true
peer_starts = refl

on_check_and_ping-IsSettled_example :
    Settles (on_check_and_ping sample_sort 500 sample_wire (1 ∷ []) peer_channel) peer_channel
on_check_and_ping-IsSettled_example =
    on_check_and_ping-IsSettled sample_sort sample_sort-IsSort 500 sample_wire (1 ∷ []) peer_channel
      peer_starts peer-IsSettled

selected_destroyed-none_example :
    on_channel_connection_destroyed sample_sort 500 1
      (record peer_channel { selected_connection = some 1 })
    ≡ none
selected_destroyed-none_example =
    selected_destroyed-none sample_sort 500 1 (record peer_channel { selected_connection = some 1 })
      refl
