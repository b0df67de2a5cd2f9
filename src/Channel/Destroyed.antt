-- ===== src/Channel/Destroyed.antt =====
-- The slot for a destroyed connection.
use grtcserver.Base.{
  ℕ, ◌≡◌, ◌∙◌, refl, sym, ap, List, [], ◌∷◌, Option, none, some, Bool, true, false, ◌==◌, ◌||◌,
  Bool-cases, Option-cases, inl, inr, ==_iff, ==-refl, if◌then◌else◌, ◌>>=◌, >>=-eq-some,
  eq_of_some,
}
use grtcserver.Controller.{IceController, member, erase_loop, set_erase, on_connection_destroyed}
use grtcserver.Channel.{
  IceTransportChannel, is_selected, switch_selected_connection, update_channel_state,
  on_channel_connection_destroyed, sort_connections_and_update_state,
}
use grtcserver.Channel.Selected.{IsSelected}
use grtcserver.Channel.Observed.{IsTold, update_channel_state-IsTold}
use grtcserver.Channel.Agreement.{IsSettled}

or-implies : (b t u : Bool) → (b || t) ≡ true → (t ≡ true → u ≡ true) → (b || u) ≡ true
or-implies true t u h k = refl
or-implies false t u h k = k h

-- The loop keeps every other connection.
erase_loop-member :
    (conn x : ℕ) (xs ys : List ℕ)
    → (x == conn) ≡ false
    → erase_loop conn xs ≡ some ys
    → member x xs ≡ true
    → member x ys ≡ true
unfolding erase_loop member
erase_loop-member conn x [] ys d h m = absurd (cc)
erase_loop-member conn x (a ∷ []) ys d h m = elim (Bool-cases (a == conn)) [
  | inl e ↦ absurd (let f : none ≡ some ys = rw e at h in cc)
  | inr e ↦ (let f : a ∷ [] ≡ ys = eq_of_some (rw e at h) in rw (sym f) m)
]
erase_loop-member conn x (a ∷ b ∷ xs) ys d h m = elim (Bool-cases (a == conn)) [
  | inl e ↦ elim (Option-cases (erase_loop conn xs)) [
    | inl n ↦ absurd (let f : none ≡ some ys = rw (erase_loop, e, n) at h in cc)
    | inr (zs, z) ↦
        (let f : b ∷ zs ≡ ys = eq_of_some (rw (erase_loop, e, z) at h) in
          rw (sym f) (
            or-implies (x == b) (member x xs) (member x zs) (rw ((==_iff a conn).0 e, d) at m)
              (erase_loop-member conn x xs zs d z)))
  ]
  | inr e ↦ elim (Option-cases (erase_loop conn (b ∷ xs))) [
    | inl n ↦ absurd (let f : none ≡ some ys = rw (erase_loop, e, n) at h in cc)
    | inr (zs, z) ↦
        (let f : a ∷ zs ≡ ys = eq_of_some (rw (erase_loop, e, z) at h) in
          rw (sym f) (
            or-implies (x == a) (member x (b ∷ xs)) (member x zs) m
              (erase_loop-member conn x (b ∷ xs) zs d z)))
  ]
]

is_selected-some : (x : ℕ) (o : Option ℕ) → is_selected x o ≡ true → o ≡ some x
unfolding is_selected
is_selected-some x none h = absurd (cc)
is_selected-some x (some y) h = ap some (sym ((==_iff x y).0 h))

switch_none-none :
    (ch : IceTransportChannel) (x : ℕ)
    → ch.selected_connection ≡ some x
    → switch_selected_connection none ch ≡ none
unfolding switch_selected_connection
switch_none-none ch x h = rw h refl

-- The controller forgets a connection that is not the selected one.
removed-IsSelected :
    (conn : ℕ) (ch : IceTransportChannel) (k : IceController)
    → IsSelected ch
    → is_selected conn ch.selected_connection ≡ false
    → on_connection_destroyed conn ch.ice_controller ≡ some k
    → IsSelected (record ch { ice_controller = k })
unfolding on_connection_destroyed
removed-IsSelected conn ch k s h r =
    elim (Option-cases (erase_loop conn ch.ice_controller.connections)) [
      | inl n ↦ absurd (let f : none ≡ some k = rw (on_connection_destroyed, n) at r in cc)
      | inr (rest, found) ↦
          let k' : IceController = record ch.ice_controller {
            connections = rest;
            unpinged_connections = set_erase conn ch.ice_controller.unpinged_connections;
            pinged_connections = set_erase conn ch.ice_controller.pinged_connections;
          } in
          let same : k' ≡ k = eq_of_some (rw (on_connection_destroyed, found) at r) in
          record {
            flags = s.flags;
            known = ap (λ (c : IceController). c.selected_connection) (sym same) ∙ s.known;
            there = λ x e.
                ap (λ (c : IceController). member x c.connections) (sym same)
                ∙ erase_loop-member conn x ch.ice_controller.connections rest (apart x e) found
                    (s.there x e);
          }
    ]
  where
    apart : (x : ℕ) → is_selected x ch.selected_connection ≡ true → (x == conn) ≡ false
    apart x e = elim (Bool-cases (x == conn)) [
      | inl f ↦ absurd (
          let g : is_selected conn ch.selected_connection ≡ true = rw ((==_iff x conn).0 f) at e in
          cc)
      | inr f ↦ f
    ]

update-IsSettled :
    (ch : IceTransportChannel) → IsSelected ch → IsTold ch → IsSettled (update_channel_state ch)
update-IsSettled ch s t =
    let (signals, e, told) = update_channel_state-IsTold ch t in
    rw e (record {
      selected = record { flags = s.flags; known = s.known; there = s.there };
      writes = refl;
      receives = refl;
      told = rw e at told;
    })

update-heap : (ch : IceTransportChannel) → IsTold ch → (update_channel_state ch).heap ≡ ch.heap
update-heap ch t = ap (λ (c : IceTransportChannel). c.heap) (update_channel_state-IsTold ch t).1

forgotten-IsSettled :
    (stable_sort : (ℕ → ℕ → Bool) → List ℕ → List ℕ) (now conn : ℕ) (ch ch' : IceTransportChannel)
    (k : IceController)
    → IsSelected ch
    → IsTold ch
    → on_connection_destroyed conn ch.ice_controller ≡ some k
    → (if is_selected conn ch.selected_connection
        then switch_selected_connection none (record ch { ice_controller = k })
          >>= sort_connections_and_update_state stable_sort now
        else some (update_channel_state (record ch { ice_controller = k })))
      ≡ some ch'
    → IsSettled ch' × (ch'.heap ≡ ch.heap)
forgotten-IsSettled stable_sort now conn ch ch' k s t removed after =
    elim (Bool-cases (is_selected conn ch.selected_connection)) [
      | inl e ↦ absurd (
          let fault : switch_selected_connection none (record ch { ice_controller = k }) ≡ none =
            switch_none-none (record ch { ice_controller = k }) conn
              (is_selected-some conn ch.selected_connection e) in
          let f : none ≡ some ch' = rw (e, fault) at after in cc)
      | inr e ↦
          let forgotten : IceTransportChannel = record ch { ice_controller = k } in
          let same : update_channel_state forgotten ≡ ch' = eq_of_some (rw e at after) in
          (
            rw same at (update-IsSettled forgotten (removed-IsSelected conn ch k s e removed) t),
            rw same at (update-heap forgotten t),
          )
    ]

-- An answer of the slot is settled: the connection was not the selected one.
pub destroyed-IsSettled :
    (stable_sort : (ℕ → ℕ → Bool) → List ℕ → List ℕ) (now conn : ℕ) (ch ch' : IceTransportChannel)
    → IsSelected ch
    → IsTold ch
    → on_channel_connection_destroyed stable_sort now conn ch ≡ some ch'
    → IsSettled ch' × (ch'.heap ≡ ch.heap)
unfolding on_channel_connection_destroyed
destroyed-IsSettled stable_sort now conn ch ch' s t h =
    let (k, removed, after) = >>=-eq-some (on_connection_destroyed conn ch.ice_controller) _ h in
    forgotten-IsSettled stable_sort now conn ch ch' k s t removed after

-- The destruction of the selected connection ends in a fault.
pub selected_destroyed-none :
    (stable_sort : (ℕ → ℕ → Bool) → List ℕ → List ℕ) (now conn : ℕ) (ch : IceTransportChannel)
    → ch.selected_connection ≡ some conn
    → on_channel_connection_destroyed stable_sort now conn ch ≡ none
unfolding on_channel_connection_destroyed is_selected
selected_destroyed-none stable_sort now conn ch h =
    elim (Option-cases (on_connection_destroyed conn ch.ice_controller)) [
      | inl e ↦ rw (on_channel_connection_destroyed, e) refl
      | inr (k, e) ↦
          let same : is_selected conn ch.selected_connection ≡ true = rw h (==-refl conn) in
          rw
            (
              on_channel_connection_destroyed,
              e,
              same,
              switch_none-none (record ch { ice_controller = k }) conn h,
            )
            refl
    ]
