-- ===== src/Channel/History.antt =====
-- The states that a channel can reach.
use grtcserver.Base.{
  ℕ, ◌≡◌, ◌∙◌, refl, sym, ap, List, [], ◌∷◌, ◌++◌, Option, some, Bool, true, false, ◌==◌, ◌||◌,
  ◌&&◌, Bool-cases, Option-cases, inl, inr, ==_iff, if◌then◌else◌, >>=-eq-some, eq_of_some,
  bytes_eq, length,
}
use grtcserver.Wire.{Wire}
use grtcserver.Stun.{StunMessage, SocketAddress, stun_attr_priority}
use grtcserver.Stun.Message.{get_uint32}
use grtcserver.Connection.{
  IceConnection, IceParameters, RemoteCandidate, Event, connection_destroy,
  maybe_set_remote_ice_params, new_connection,
}
use grtcserver.Connection.Delivery.{on_read_packet}
use grtcserver.Controller.{member, add_connection, new_controller}
use grtcserver.Controller.Sets.{member-append}
use grtcserver.Controller.Selection.{IsSort}
use grtcserver.Channel.{
  IceTransportChannel, new_channel, set_ice_params, put, is_selected, selected_writable,
  any_receiving, on_channel_connection_destroyed, operate, on_events, on_check_and_ping,
  set_remote_ice_params, add_peer, on_unknown_address,
}
use grtcserver.Channel.Selected.{IsSelected, put-IsSelected}
use grtcserver.Channel.Events.{Same}
use grtcserver.Channel.Agreement.{
  IsSettled, Settles, sort-IsSettled, operate-IsSettled, put-IsSettled, put-IsTold, put-here,
}
use grtcserver.Channel.Destroyed.{destroyed-IsSettled}
use grtcserver.Channel.Packets.{Answers, on_read_packet-Answers}
use grtcserver.Channel.Checks.{on_check_and_ping-IsSettled}

-- From a new channel, over what it is told and the packets and timers that come, at any times. A
-- new connection has an address that the controller does not know. The timer calls only while it
-- runs. An event that ends in a fault leads nowhere.
module _ (stable_sort : (ℕ → ℕ → Bool) → List ℕ → List ℕ) (w : Wire)
    (split : ℕ → List ℕ → List (List ℕ)) (average : ℕ → ℕ → ℕ → ℕ) where
  pub data Reachable : IceTransportChannel → Type 0 where
    start :
        (heap : ℕ → IceConnection) (params : IceParameters)
        → ((x : ℕ) → (heap x).selected ≡ false)
        → Reachable (new_channel heap params)
    local :
        {ch : IceTransportChannel} (params : IceParameters)
        → Reachable ch
        → Reachable (set_ice_params params ch)
    remote :
        {ch ch' : IceTransportChannel} (now : ℕ) (params : IceParameters)
        → set_remote_ice_params stable_sort now params ch ≡ some ch'
        → Reachable ch
        → Reachable ch'
    unknown :
        {ch ch' : IceTransportChannel} (now : ℕ) (params : IceParameters) (addr : SocketAddress)
        (msg : StunMessage) (remote_ufrag : List ℕ) (conn local_priority : ℕ)
        → member conn ch.ice_controller.connections ≡ false
        → (on_unknown_address stable_sort now w params addr msg remote_ufrag conn local_priority
            ch).1
          ≡ some ch'
        → Reachable ch
        → Reachable ch'
    packet :
        {ch ch' : IceTransportChannel} (now : ℕ) (params : IceParameters) (addr : SocketAddress)
        (input : List ℕ) (conn : ℕ)
        → operate stable_sort now conn
            (on_read_packet w split average params addr input now (ch.heap conn)).1
            ch
          ≡ some ch'
        → Reachable ch
        → Reachable ch'
    timer :
        {ch ch' : IceTransportChannel} (now : ℕ) (id : List ℕ)
        → ch.start_pinging ≡ true
        → on_check_and_ping stable_sort now w id ch ≡ some ch'
        → Reachable ch
        → Reachable ch'

-- A result that was given is the settled one.
settled :
    (result : Option IceTransportChannel) (ch ch' : IceTransportChannel)
    → Settles result ch
    → result ≡ some ch'
    → IsSettled ch'
settled result ch ch' (ch1, e, s, on) h =
    let same : ch1 ≡ ch' = eq_of_some (sym e ∙ h) in rw same at s

new_channel-IsSettled :
    (heap : ℕ → IceConnection) (params : IceParameters)
    → ((x : ℕ) → (heap x).selected ≡ false)
    → IsSettled (new_channel heap params)
unfolding new_channel new_controller is_selected selected_writable any_receiving
new_channel-IsSettled heap params h = record {
  selected = record {
    flags = h;
    known = refl;
    there = λ x e. absurd (let f : false ≡ true = e in cc);
  };
  writes = refl;
  receives = refl;
  told = refl;
}

maybe_set-selected :
    (params : IceParameters) (c : IceConnection)
    → (maybe_set_remote_ice_params params c).selected ≡ c.selected
unfolding maybe_set_remote_ice_params
maybe_set-selected params c =
    elim (Bool-cases (
      bytes_eq c.remote_candidate.username params.ice_ufrag
      && length c.remote_candidate.password == 0)) [ inl e ↦ rw e refl | inr e ↦ rw e refl ]

-- A connection that the controller does not know is not the selected one.
new_is_not :
    (conn : ℕ) (ch : IceTransportChannel)
    → IsSettled ch
    → member conn ch.ice_controller.connections ≡ false
    → (x : ℕ) → x ≡ conn
    → is_selected x ch.selected_connection ≡ false
new_is_not conn ch s fresh x h = elim (Bool-cases (is_selected x ch.selected_connection)) [
  | inl e ↦ absurd (
      let m : member conn ch.ice_controller.connections ≡ true = rw h at (s.selected.there x e) in
      cc)
  | inr e ↦ e
]

member-more : (x y : ℕ) (xs : List ℕ) → member x xs ≡ true → member x (xs ++ y ∷ []) ≡ true
member-more x y xs h = member-append x y xs ∙ rw h (or_true (x == y))
  where
    or_true : (b : Bool) → (b || true) ≡ true
    or_true true = refl
    or_true false = refl

module _ (stable_sort : (ℕ → ℕ → Bool) → List ℕ → List ℕ) (laws : IsSort stable_sort)
    (now : ℕ) where
  set_remote-Settles :
      (params : IceParameters) (ch : IceTransportChannel)
      → IsSettled ch
      → Settles (set_remote_ice_params stable_sort now params ch) ch
  unfolding set_remote_ice_params
  set_remote-Settles params ch s =
      let ch1 : IceTransportChannel = record ch {
        remote_ice_params = params;
        heap = λ a.
            if member a ch.ice_controller.connections
            then maybe_set_remote_ice_params params (ch.heap a)
            else ch.heap a;
      } in
      let s1 : IsSelected ch1 = record {
        flags = λ x. elim (Bool-cases (member x ch.ice_controller.connections)) [
          | inl e ↦ rw e (maybe_set-selected params (ch.heap x) ∙ s.selected.flags x)
          | inr e ↦ rw e (s.selected.flags x)
        ];
        known = s.selected.known;
        there = s.selected.there;
      } in
      let (ch2, e, s2, alike, on) = sort-IsSettled stable_sort laws now ch1 s1 s.told in
      (ch2, e, s2, on)

  add_peer-Settles :
      (conn : ℕ) (remote_ufrag : List ℕ) (remote_priority local_priority : ℕ)
      (ch : IceTransportChannel)
      → member conn ch.ice_controller.connections ≡ false
      → IsSettled ch
      → Settles (add_peer stable_sort now conn remote_ufrag remote_priority local_priority ch) ch
  unfolding add_peer add_connection new_connection
  add_peer-Settles conn remote_ufrag remote_priority local_priority ch fresh s =
      let candidate : RemoteCandidate = record {
        username = remote_ufrag;
        password = ch.remote_ice_params.ice_pwd;
        priority = remote_priority;
      } in
      let ch1 : IceTransportChannel = record ch {
        heap = λ a. if a == conn then new_connection candidate local_priority else ch.heap a;
        ice_controller = add_connection conn ch.ice_controller;
      } in
      let s1 : IsSelected ch1 = record {
        flags = λ x. elim (Bool-cases (x == conn)) [
          | inl e ↦ rw e (sym (new_is_not conn ch s fresh x ((==_iff x conn).0 e)))
          | inr e ↦ rw e (s.selected.flags x)
        ];
        known = s.selected.known;
        there = λ x e. member-more x conn ch.ice_controller.connections (s.selected.there x e);
      } in
      let (ch2, e, s2, alike, on) = sort-IsSettled stable_sort laws now ch1 s1 s.told in
      (ch2, e, s2, on)

  unknown-IsSettled :
      (w : Wire) (params : IceParameters) (addr : SocketAddress) (msg : StunMessage)
      (remote_ufrag : List ℕ) (conn local_priority : ℕ) (ch ch' : IceTransportChannel)
      → member conn ch.ice_controller.connections ≡ false
      → (on_unknown_address stable_sort now w params addr msg remote_ufrag conn local_priority ch).1
        ≡ some ch'
      → IsSettled ch
      → IsSettled ch'
  unfolding on_unknown_address
  unknown-IsSettled w params addr msg remote_ufrag conn local_priority ch ch' fresh h s =
      elim (Option-cases (get_uint32 msg stun_attr_priority)) [
        | inl e ↦
            (let f : some ch ≡ some ch' = rw (on_unknown_address, e) at h in rw (eq_of_some f) at s)
        | inr (p, e) ↦
            settled (add_peer stable_sort now conn remote_ufrag p local_priority ch) ch ch'
              (add_peer-Settles conn remote_ufrag p local_priority ch fresh s)
              (rw (on_unknown_address, e) at h)
      ]

  -- The connection that has failed is destroyed, and is as it was but for its state.
  destroy-IsSettled :
      (conn : ℕ) (last : IceConnection) (ch ch' : IceTransportChannel)
      → Same last (ch.heap conn)
      → operate stable_sort now conn (last, connection_destroy last ∷ []) ch ≡ some ch'
      → IsSettled ch
      → IsSettled ch'
  unfolding operate on_events
  destroy-IsSettled conn last ch ch' same h s =
      let from : IceTransportChannel = put conn last ch in
      let (ch2, e, f) =
        >>=-eq-some (on_events stable_sort now conn (connection_destroy last ∷ []) ch)
          (λ c. some (put conn last c)) h in
      let (ch1, d, g) =
        >>=-eq-some (on_channel_connection_destroyed stable_sort now conn from)
          (on_events stable_sort now conn []) e in
      let (s1, heap) =
        destroyed-IsSettled stable_sort now conn from ch1 (put-IsSelected conn last ch s.selected)
          (put-IsTold conn last ch s.told) d in
      let here : Same (from.heap conn) last = put-here conn last ch in
      let there : Same (ch1.heap conn) last =
        rw (ap (λ (m : ℕ → IceConnection). m conn) heap) here in
      let end : put conn last ch1 ≡ ch' = ap (put conn last) (eq_of_some g) ∙ eq_of_some f in
      rw end at (put-IsSettled conn last ch1 (sym there.0, sym there.1) s1)

  packet-IsSettled :
      (conn : ℕ) (r : IceConnection × List Event) (ch ch' : IceTransportChannel)
      → Answers (ch.heap conn) r
      → operate stable_sort now conn r ch ≡ some ch'
      → IsSettled ch
      → IsSettled ch'
  packet-IsSettled conn r ch ch' (inl t) h s =
      settled (operate stable_sort now conn r ch) ch ch'
        (operate-IsSettled stable_sort laws now conn (ch.heap conn) r.0 r.1 ch (refl, refl) t s) h
  packet-IsSettled conn r ch ch' (inr (same, e)) h s =
      destroy-IsSettled conn r.0 ch ch' same (rw e at h) s

module _ (stable_sort : (ℕ → ℕ → Bool) → List ℕ → List ℕ) (laws : IsSort stable_sort) (w : Wire)
    (split : ℕ → List ℕ → List (List ℕ)) (average : ℕ → ℕ → ℕ → ℕ) where
  -- Whatever a channel is told and whatever packets and ticks of its timer come, as long as no
  -- access faults: the selected connection of the channel is that of the controller, one of its
  -- connections, and the only one with the flag; the channel is writable if the selected
  -- connection is and receiving if some connection is; and who follows the signals knows whether
  -- it is writable and receiving, and the interval of the running timer.
  pub Reachable-IsSettled :
      {ch : IceTransportChannel} → Reachable stable_sort w split average ch → IsSettled ch
  unfolding set_ice_params
  Reachable-IsSettled (start heap params h) = new_channel-IsSettled heap params h
  Reachable-IsSettled (local params r) =
      let s = Reachable-IsSettled r in
      record {
        selected = record {
          flags = s.selected.flags;
          known = s.selected.known;
          there = s.selected.there;
        };
        writes = s.writes;
        receives = s.receives;
        told = s.told;
      }
  Reachable-IsSettled (remote {ch} {ch'} now params h r) =
      settled (set_remote_ice_params stable_sort now params ch) ch ch'
        (set_remote-Settles stable_sort laws now params ch (Reachable-IsSettled r)) h
  Reachable-IsSettled
        (unknown {ch} {ch'} now params addr msg remote_ufrag conn local_priority fresh h r) =
      unknown-IsSettled stable_sort laws now w params addr msg remote_ufrag conn local_priority ch
        ch' fresh h (Reachable-IsSettled r)
  Reachable-IsSettled (packet {ch} {ch'} now params addr input conn h r) =
      packet-IsSettled stable_sort laws now conn
        (on_read_packet w split average params addr input now (ch.heap conn)).1 ch ch'
        (on_read_packet-Answers w split average params addr input now (ch.heap conn)) h
        (Reachable-IsSettled r)
  Reachable-IsSettled (timer {ch} {ch'} now id on h r) =
      settled (on_check_and_ping stable_sort now w id ch) ch ch'
        (on_check_and_ping-IsSettled stable_sort laws now w id ch on (Reachable-IsSettled r)) h
