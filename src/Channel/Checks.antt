-- ===== src/Channel/Checks.antt =====
-- _on_check_and_ping: the slot of the ping timer.
use grtcserver.Base.{
  ℕ, ◌≡◌, ◌∙◌, refl, sym, ap, List, [], ◌∷◌, Option, none, some, Bool, true, ◌||◌, Bool-cases,
  Option-cases, inl, inr, if◌then◌else◌, leb, ◌+◌,
}
use grtcserver.Wire.{Wire}
use grtcserver.Connection.{IceConnection, IceParameters, update_state, mark_ping}
use grtcserver.Connection.Messages.{ping}
use grtcserver.Controller.{
  IceController, member, mark_connection_pinged, selected_connection_to_ping,
  find_next_pingable_connection, due_selected, unpin, is_weak, need_ping_more_at_weak,
  weak_ping_interval, strong_ping_interval,
}
use grtcserver.Controller.Selection.{IsSort}
use grtcserver.Channel.{
  IceTransportChannel, put, any_receiving, ping_interval_diff, update_connections, ping_chosen,
  set_ping_interval, on_check_and_ping,
}
use grtcserver.Channel.Observed.{set_ping_interval-IsTold}
use grtcserver.Channel.Events.{Same, update_state-Tells}
use grtcserver.Channel.Agreement.{IsSettled, Settles, operate-IsSettled, put-IsSettled}

-- The controller may change what it knows of pings.
controller-IsSettled :
    (ch : IceTransportChannel) (k : IceController)
    → k.connections ≡ ch.ice_controller.connections
    → k.selected_connection ≡ ch.ice_controller.selected_connection
    → IsSettled ch
    → IsSettled (record ch { ice_controller = k })
controller-IsSettled ch k e f s = record {
  selected = record {
    flags = s.selected.flags;
    known = f ∙ s.selected.known;
    there = λ x h. rw e (s.selected.there x h);
  };
  writes = s.writes;
  receives = s.receives ∙ ap (any_receiving ch.heap) (sym e);
  told = s.told;
}

-- The connections and the selected one.
abbrev Keeps : IceController → IceController → Type 0
Keeps k k' = (k'.connections ≡ k.connections) × (k'.selected_connection ≡ k.selected_connection)

find_next_pingable_connection-Keeps :
    (heap : ℕ → IceConnection) (now : ℕ) (k : IceController)
    → Keeps k (find_next_pingable_connection heap now k).1
unfolding find_next_pingable_connection unpin
find_next_pingable_connection-Keeps heap now k = elim (Option-cases (due_selected heap now k)) [
  | inl e ↦ rw (find_next_pingable_connection, e) (refl, refl)
  | inr (conn, e) ↦ rw (find_next_pingable_connection, e) (refl, refl)
]

selected_connection_to_ping-Keeps :
    (heap : ℕ → IceConnection) (last diff now : ℕ) (k : IceController)
    → Keeps k (selected_connection_to_ping heap last diff now k).1
unfolding selected_connection_to_ping
selected_connection_to_ping-Keeps heap last diff now k =
    let interval : ℕ =
      if is_weak heap k || need_ping_more_at_weak heap k.connections
      then weak_ping_interval
      else strong_ping_interval in
    elim (Bool-cases (leb (last + interval) (now + diff))) [
      | inl e ↦ rw (selected_connection_to_ping, e) (find_next_pingable_connection-Keeps heap now k)
      | inr e ↦ rw (selected_connection_to_ping, e) (refl, refl)
    ]

mark_connection_pinged-Keeps :
    (o : Option ℕ) (k : IceController) → Keeps k (mark_connection_pinged o k)
unfolding mark_connection_pinged
mark_connection_pinged-Keeps none k = (refl, refl)
mark_connection_pinged-Keeps (some conn) k = elim (Bool-cases (member conn k.pinged_connections)) [
  | inl e ↦ rw e (refl, refl)
  | inr e ↦ rw e (refl, refl)
]

ping-Same :
    (w : Wire) (params : IceParameters) (id : List ℕ) (now : ℕ) (c : IceConnection)
    → Same (ping w params id now c).1 c
unfolding ping mark_ping
ping-Same w params id now c = (refl, refl)

clock-IsSettled :
    (now : ℕ) (ch : IceTransportChannel)
    → IsSettled ch
    → IsSettled (record ch { last_ping_sent_ms = now })
clock-IsSettled now ch s = record {
  selected = record {
    flags = s.selected.flags;
    known = s.selected.known;
    there = s.selected.there;
  };
  writes = s.writes;
  receives = s.receives;
  told = s.told;
}

put-start :
    (conn : ℕ) (c : IceConnection) (ch : IceTransportChannel)
    → (put conn c ch).start_pinging ≡ ch.start_pinging
unfolding put
put-start conn c ch = refl

ping_chosen-IsSettled :
    (now : ℕ) (w : Wire) (id : List ℕ) (o : Option ℕ) (ch : IceTransportChannel)
    → IsSettled ch
    → IsSettled (ping_chosen now w id o ch)
      × ((ping_chosen now w id o ch).start_pinging ≡ ch.start_pinging)
unfolding ping_chosen
ping_chosen-IsSettled now w id none ch s = (s, refl)
ping_chosen-IsSettled now w id (some conn) ch s =
    let c : IceConnection = (ping w ch.ice_params id now (ch.heap conn)).1 in
    let ch1 : IceTransportChannel = put conn c ch in
    let s1 : IsSettled ch1 =
      put-IsSettled conn c ch (ping-Same w ch.ice_params id now (ch.heap conn)) s in
    let (e, f) = mark_connection_pinged-Keeps (some conn) ch1.ice_controller in
    (
      clock-IsSettled now
          (record ch1 { ice_controller = mark_connection_pinged (some conn) ch1.ice_controller })
          (controller-IsSettled ch1 (mark_connection_pinged (some conn) ch1.ice_controller) e f s1),
      put-start conn c ch,
    )

module _ (stable_sort : (ℕ → ℕ → Bool) → List ℕ → List ℕ) (laws : IsSort stable_sort)
    (now : ℕ) where
  update_connections-IsSettled :
      (conns : List ℕ) (ch : IceTransportChannel)
      → IsSettled ch
      → Settles (update_connections stable_sort now conns ch) ch
  unfolding update_connections
  update_connections-IsSettled [] ch s = (ch, refl, s, λ on. on)
  update_connections-IsSettled (conn ∷ rest) ch s =
      let c : IceConnection = ch.heap conn in
      let (ch1, e, s1, on1) =
        operate-IsSettled stable_sort laws now conn c (update_state now c).0 (update_state now c).1
          ch (refl, refl) (update_state-Tells now c) s in
      let (ch2, f, s2, on2) = update_connections-IsSettled rest ch1 s1 in
      (ch2, rw e f, s2, λ on. on2 (on1 on))

  -- In a settled channel whose timer runs, _on_check_and_ping returns without a fault, whatever
  -- signals its connections raise on the way, and leaves the channel settled with the timer
  -- running.
  pub on_check_and_ping-IsSettled :
      (w : Wire) (id : List ℕ) (ch : IceTransportChannel)
      → ch.start_pinging ≡ true
      → IsSettled ch
      → Settles (on_check_and_ping stable_sort now w id ch) ch
  unfolding on_check_and_ping
  on_check_and_ping-IsSettled w id ch on s =
      let (ch1, e, s1, on1) = update_connections-IsSettled ch.ice_controller.connections ch s in
      let (result, k) =
        selected_connection_to_ping ch1.heap ch1.last_ping_sent_ms ping_interval_diff now
          ch1.ice_controller in
      let (connections, selected) =
        selected_connection_to_ping-Keeps ch1.heap ch1.last_ping_sent_ms ping_interval_diff now
          ch1.ice_controller in
      let ch2 : IceTransportChannel = record ch1 { ice_controller = k } in
      let s2 : IsSettled ch2 = controller-IsSettled ch1 k connections selected s1 in
      let (s3, start) = ping_chosen-IsSettled now w id result.conn ch2 s2 in
      let ch3 : IceTransportChannel = ping_chosen now w id result.conn ch2 in
      let on3 : ch3.start_pinging ≡ true = start ∙ on1 on in
      let (signals, f, told) = set_ping_interval-IsTold result.ping_interval ch3 on3 s3.told in
      (
        set_ping_interval result.ping_interval ch3,
        rw e refl,
        rw f (record {
          selected = record {
            flags = s3.selected.flags;
            known = s3.selected.known;
            there = s3.selected.there;
          };
          writes = s3.writes;
          receives = s3.receives;
          told = rw f at told;
        }),
        λ p. ap (λ (c : IceTransportChannel). c.start_pinging) f ∙ on3,
      )
