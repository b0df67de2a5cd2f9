-- ===== src/Channel/Agreement.antt =====
-- The slots of the channel leave it settled, whatever the connection's operation is.
use grtcserver.Base.{
  ℕ, ◌≡◌, ◌∙◌, refl, sym, ap, List, [], ◌∷◌, Option, none, some, Bool, true, false, ◌==◌,
  Bool-cases, inl, inr, ==_iff, ==-refl,
}
use grtcserver.Connection.{IceConnection, Event, state_change, connection_destroy, is_writable}
use grtcserver.Controller.{
  IceController, member, set_selected_connection, sort_and_switch_connection, sorts_before,
}
use grtcserver.Controller.Selection.{IsSort, choose_lem}
use grtcserver.Channel.{
  IceTransportChannel, put, maybe_switch_selected_connection, set_selected, unselect,
  switch_selected_connection, selected_writable, any_receiving, update_channel_state,
  maybe_start_pinging, sort_connections_and_update_state, on_events, operate,
}
use grtcserver.Channel.Events.{Same, Same-trans, Tells}
use grtcserver.Channel.Selected.{IsSelected, put-IsSelected, switch-IsSelected}
use grtcserver.Channel.Observed.{IsTold, update_channel_state-IsTold, maybe_start_pinging-IsTold}

-- The channel tells the truth about its connections, and the signals about the channel.
pub record IsSettled (ch : IceTransportChannel) : Type 0 where
  pub selected : IsSelected ch
  pub writes : ch.writable ≡ selected_writable ch.heap ch.selected_connection
  pub receives : ch.receiving ≡ any_receiving ch.heap ch.ice_controller.connections
  pub told : IsTold ch

-- But for the flag.
abbrev pub Alike : IceConnection → IceConnection → Type 0
Alike a b = record a { selected = true } ≡ record b { selected = true }

set_selected-Alike :
    (value : Bool) (conn : ℕ) (heap : ℕ → IceConnection) (x : ℕ)
    → Alike (set_selected value conn heap x) (heap x)
unfolding set_selected
set_selected-Alike value conn heap x = elim (Bool-cases (x == conn)) [
  | inl e ↦ rw e refl
  | inr e ↦ rw e refl
]

unselect-Alike :
    (old : Option ℕ) (heap : ℕ → IceConnection) (x : ℕ) → Alike (unselect old heap x) (heap x)
unfolding unselect
unselect-Alike none heap x = refl
unselect-Alike (some old) heap x = set_selected-Alike false old heap x

-- The switch, where the controller's answer is one of its connections.
switched :
    (o : Option ℕ) (ch : IceTransportChannel)
    → ((top : ℕ) → o ≡ some top → member top ch.ice_controller.connections ≡ true)
    → IsSelected ch
    → (ch' : IceTransportChannel) × (maybe_switch_selected_connection o ch ≡ some ch')
      × IsSelected ch'
      × ((x : ℕ) → Alike (ch'.heap x) (ch.heap x))
      × (IsTold ch → IsTold ch')
      × (ch'.start_pinging ≡ ch.start_pinging)
unfolding maybe_switch_selected_connection switch_selected_connection set_selected_connection
switched none ch m s = (ch, refl, s, λ x. refl, λ t. t, refl)
switched (some conn) ch m s =
    let heap : ℕ → IceConnection = unselect ch.selected_connection ch.heap in
    (
      record ch {
        selected_connection = some conn;
        heap = set_selected true conn heap;
        ice_controller = set_selected_connection (some conn) ch.ice_controller;
      },
      refl,
      switch-IsSelected conn ch (m conn refl) s,
      λ x. set_selected-Alike true conn heap x ∙ unselect-Alike ch.selected_connection ch.heap x,
      λ t. t,
      refl,
    )

module _ (stable_sort : (ℕ → ℕ → Bool) → List ℕ → List ℕ) (laws : IsSort stable_sort)
    (now : ℕ) where
  -- The connections are sorted, and the selected one stays the same until the switch.
  sorted :
      (ch : IceTransportChannel)
      → IsSelected ch
      → IsSelected (record ch {
        ice_controller = (sort_and_switch_connection ch.heap stable_sort ch.ice_controller).1;
      })
        × ((top : ℕ)
            → (sort_and_switch_connection ch.heap stable_sort ch.ice_controller).0 ≡ some top
            → member top
                (sort_and_switch_connection ch.heap stable_sort ch.ice_controller).1.connections
              ≡ true)
  unfolding sort_and_switch_connection member
  sorted ch s =
      let less : ℕ → ℕ → Bool = λ a b. sorts_before (ch.heap a) (ch.heap b) in
      let k : IceController = ch.ice_controller in
      (
        record {
          flags = s.flags;
          known = s.known;
          there = λ x e. laws.keeps less k.connections x ∙ s.there x e;
        },
        λ top e.
            let (rest, found, _, _) =
              choose_lem ch.heap k.selected_connection (stable_sort less k.connections) top e in
            rw (found, ==-refl top) refl,
      )

  pub sort-IsSettled :
      (ch : IceTransportChannel)
      → IsSelected ch
      → IsTold ch
      → (ch' : IceTransportChannel) × (sort_connections_and_update_state stable_sort now ch
          ≡ some ch')
        × IsSettled ch'
        × ((x : ℕ) → Alike (ch'.heap x) (ch.heap x))
        × (ch.start_pinging ≡ true → ch'.start_pinging ≡ true)
  unfolding sort_connections_and_update_state
  sort-IsSettled ch s h =
      let result : Option ℕ × IceController =
        sort_and_switch_connection ch.heap stable_sort ch.ice_controller in
      let (s0, top) = sorted ch s in
      let ch0 : IceTransportChannel = record ch { ice_controller = result.1 } in
      let (ch1, switch, s1, alike, told, start) = switched result.0 ch0 top s0 in
      let (signals, update, told') = update_channel_state-IsTold ch1 (told h) in
      let (signals', started, ping, told'', on) =
        maybe_start_pinging-IsTold now (update_channel_state ch1) told' in
      let ch2 : IceTransportChannel = record ch1 {
        writable = selected_writable ch1.heap ch1.selected_connection;
        receiving = any_receiving ch1.heap ch1.ice_controller.connections;
        signals = signals';
        start_pinging = started;
      } in
      let all : maybe_start_pinging now (update_channel_state ch1) ≡ ch2 =
        ping
        ∙ ap (λ (c : IceTransportChannel). record c { start_pinging = started; signals = signals' })
            update in
      (
        ch2,
        rw (switch, all) refl,
        record {
          selected = record { flags = s1.flags; known = s1.known; there = s1.there };
          writes = refl;
          receives = refl;
          told = rw all at told'';
        },
        alike,
        λ p. on (ap (λ (c : IceTransportChannel). c.start_pinging) update ∙ (start ∙ p)),
      )

-- Only two fields of a connection are read for the state of the channel.
selected_writable-Same :
    (heap heap' : ℕ → IceConnection) (o : Option ℕ)
    → ((x : ℕ) → Same (heap' x) (heap x))
    → selected_writable heap' o ≡ selected_writable heap o
unfolding selected_writable is_writable
selected_writable-Same heap heap' none h = refl
selected_writable-Same heap heap' (some conn) h = rw (h conn).0 refl

any_receiving-Same :
    (heap heap' : ℕ → IceConnection) (xs : List ℕ)
    → ((x : ℕ) → Same (heap' x) (heap x))
    → any_receiving heap' xs ≡ any_receiving heap xs
unfolding any_receiving
any_receiving-Same heap heap' [] h = refl
any_receiving-Same heap heap' (conn ∷ xs) h =
    rw ((h conn).1, any_receiving-Same heap heap' xs h) refl

pub put-here :
    (conn : ℕ) (c : IceConnection) (ch : IceTransportChannel) → Same ((put conn c ch).heap conn) c
unfolding put
put-here conn c ch = rw (==-refl conn) (refl, refl)

put-Same :
    (conn : ℕ) (c : IceConnection) (ch : IceTransportChannel)
    → Same c (ch.heap conn)
    → (x : ℕ) → Same ((put conn c ch).heap x) (ch.heap x)
unfolding put
put-Same conn c ch h x = elim (Bool-cases (x == conn)) [
  | inl e ↦ rw (e, (==_iff x conn).0 e) h
  | inr e ↦ rw e (refl, refl)
]

-- An operation that has changed neither of the two fields.
pub put-IsSettled :
    (conn : ℕ) (c : IceConnection) (ch : IceTransportChannel)
    → Same c (ch.heap conn)
    → IsSettled ch
    → IsSettled (put conn c ch)
unfolding put
put-IsSettled conn c ch h s = record {
  selected = put-IsSelected conn c ch s.selected;
  writes =
      s.writes
      ∙ sym (
          selected_writable-Same ch.heap (put conn c ch).heap ch.selected_connection
            (put-Same conn c ch h));
  receives =
      s.receives
      ∙ sym (
          any_receiving-Same ch.heap (put conn c ch).heap ch.ice_controller.connections
            (put-Same conn c ch h));
  told = s.told;
}

-- A result, which is settled and has not lost the timer.
abbrev pub Settles : Option IceTransportChannel → IceTransportChannel → Type 0
Settles result ch =
    (ch' : IceTransportChannel) × (result ≡ some ch')
    × IsSettled ch'
    × (ch.start_pinging ≡ true → ch'.start_pinging ≡ true)

pub put-IsTold :
    (conn : ℕ) (c : IceConnection) (ch : IceTransportChannel) → IsTold ch → IsTold (put conn c ch)
unfolding put
put-IsTold conn c ch h = h

module _ (stable_sort : (ℕ → ℕ → Bool) → List ℕ → List ℕ) (laws : IsSort stable_sort)
    (now conn : ℕ) where
  -- Every operation that tells of its changes leaves the channel settled.
  pub operate-IsSettled :
      (from last : IceConnection) (events : List Event) (ch : IceTransportChannel)
      → Same from (ch.heap conn)
      → Tells from last events
      → IsSettled ch
      → Settles (operate stable_sort now conn (last, events) ch) ch
  unfolding operate on_events put
  operate-IsSettled from last [] ch h t s = (
    put conn last ch,
    refl,
    put-IsSettled conn last ch (Same-trans last from (ch.heap conn) (sym t.0, sym t.1) h) s,
    λ on. on,
  )
  operate-IsSettled from last (state_change c ∷ events) ch h t s =
      let (ch1, e, s1, alike, on1) =
        sort-IsSettled stable_sort laws now (put conn c ch) (put-IsSelected conn c ch s.selected)
          (put-IsTold conn c ch s.told) in
      let here : Same ((put conn c ch).heap conn) c = put-here conn c ch in
      let there : Same c (ch1.heap conn) = (
        sym (ap (λ (d : IceConnection). d.write_state) (alike conn) ∙ here.0),
        sym (ap (λ (d : IceConnection). d.receiving) (alike conn) ∙ here.1),
      ) in
      let (ch2, run, s2, on2) = operate-IsSettled c last events ch1 there t s1 in
      (ch2, rw e run, s2, λ on. on2 (on1 on))
  operate-IsSettled from last (connection_destroy c ∷ events) ch h t s =
      absurd (let f : false ≡ true = t in cc)
