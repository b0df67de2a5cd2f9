-- ===== src/Connection/Receiving.antt =====
-- When a connection counts as receiving, and who hears of a change.
use grtcserver.Base.{
  ℕ, ◌+◌, ◌≤◌, ◌<◌, ◌≡◌, ◌↔◌, ◌⊎◌, inl, inr, refl, List, [], ◌∷◌, Bool, true, if◌then◌else◌, arith,
  Bool-cases,
}
use grtcserver.Connection.{
  IceConnection, Event, state_change, larger, last_received, is_receiving, update_receiving,
  weak_connection_receive_timeout,
}

larger_iff : (a b n : ℕ) → (n < larger a b) ↔ ((n < a) ⊎ (n < b))
unfolding larger
larger_iff a b n = ground arith

pub is_receiving_iff :
    (now : ℕ) (c : IceConnection)
    → (is_receiving now c ≡ true) ↔ (
        (c.last_ping_sent < c.last_ping_response_received)
        ⊎ ((0 < last_received c) × (now < last_received c + weak_connection_receive_timeout)))
unfolding is_receiving
is_receiving_iff now c = ground arith

pub last_received_bound : (c : IceConnection) → c.last_ping_response_received ≤ last_received c
unfolding last_received larger
last_received_bound c = ground arith

-- The signals of a change from the first state to the second.
unfoldable pub changed : Bool → Bool → IceConnection → List Event
changed old new c =
    if old
    then (if new then [] else state_change c ∷ [])
    else (if new then state_change c ∷ [] else [])

-- One formula for the branches.
pub update_receiving-value :
    (now : ℕ) (c : IceConnection)
    → let c' = record c { receiving = is_receiving now c } in
      update_receiving now c ≡ (c', changed c.receiving (is_receiving now c) c')
unfolding update_receiving changed
update_receiving-value now c = elim (Bool-cases c.receiving) [
  | inl e ↦ elim (Bool-cases (is_receiving now c)) [
    | inl h ↦ rw (update_receiving, e, h) refl
    | inr h ↦ rw (update_receiving, e, h) refl
  ]
  | inr e ↦ elim (Bool-cases (is_receiving now c)) [
    | inl h ↦ rw (update_receiving, e, h) refl
    | inr h ↦ rw (update_receiving, e, h) refl
  ]
]

settled :
    (now : ℕ) (c : IceConnection)
    → c.receiving ≡ is_receiving now c
    → update_receiving now c ≡ (c, [])
unfolding update_receiving
settled now c e = elim (Bool-cases (is_receiving now c)) [
  | inl h ↦ rw (update_receiving, e, h) refl
  | inr h ↦ rw (update_receiving, e, h) refl
]

-- update_receiving leaves the connection receiving exactly if its last ping is answered, or it
-- has received something and that within the timeout; it signals a change of this and nothing
-- else, so a second call at the same time does nothing.
pub update_receiving_lem :
    (now : ℕ) (c : IceConnection)
    → let (c', events) = update_receiving now c in
      ((c'.receiving ≡ true) ↔ (
        (c.last_ping_sent < c.last_ping_response_received)
        ⊎ ((0 < last_received c) × (now < last_received c + weak_connection_receive_timeout))))
      × (c' ≡ record c { receiving = c'.receiving })
      × (events ≡ changed c.receiving c'.receiving c')
      × (update_receiving now c' ≡ (c', []))
unfolding changed is_receiving last_received
update_receiving_lem now c = rw (update_receiving-value now c) (
  is_receiving_iff now c,
  refl,
  refl,
  settled now (record c { receiving = is_receiving now c }) refl,
)
