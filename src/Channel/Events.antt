-- ===== src/Channel/Events.antt =====
-- An operation of a connection raises a signal behind each change that the channel has to know.
use grtcserver.Base.{
  ℕ, ◌≡◌, ◌∙◌, refl, List, [], ◌∷◌, ◌++◌, Bool, true, false, ◌==◌, arith, Bool-cases, inl, inr,
  ◌&&◌, suc, ltb, if◌then◌else◌,
}
use grtcserver.Connection.{
  IceConnection, WriteState, writable, write_unreliable, write_init, write_timeout, rank, Event,
  state_change, connection_destroy, Operation, ◌before◌, set_write_state, set_state, succeeded,
  is_receiving, update_receiving, received_ping_response, check_writable, check_timeout,
  update_state, is_writable, too_many_ping_fails, too_long_without_response,
  connection_write_timeout, connection_write_connect_fails, connection_write_connect_timeout,
  allowed_rtt, IceCandidatePairState, rtt_ratio,
}

-- The two fields that the channel reads.
abbrev pub Same : IceConnection → IceConnection → Type 0
Same a b = (a.write_state ≡ b.write_state) × (a.receiving ≡ b.receiving)

pub Same-trans : (a b c : IceConnection) → Same a b → Same b c → Same a c
Same-trans a b c h k = (h.0 ∙ k.0, h.1 ∙ k.1)

-- From a first to a last state, with the events between them. None destroys the connection.
abbrev pub Tells : IceConnection → IceConnection → List Event → Type 0
Tells c last [] = Same c last
Tells c last (state_change s ∷ events) = Tells s last events
Tells c last (connection_destroy s ∷ events) = false ≡ true

pub Tells-Same :
    (a b last : IceConnection) (events : List Event)
    → Same a b
    → Tells b last events
    → Tells a last events
Tells-Same a b last [] h t = Same-trans a b last h t
Tells-Same a b last (state_change s ∷ events) h t = t
Tells-Same a b last (connection_destroy s ∷ events) h t = t

Tells-append :
    (a b c : IceConnection) (first later : List Event)
    → Tells a b first
    → Tells b c later
    → Tells a c (first ++ later)
Tells-append a b c [] later h k = Tells-Same a b c later h k
Tells-append a b c (state_change s ∷ first) later h k = Tells-append s b c first later h k
Tells-append a b c (connection_destroy s ∷ first) later h k = h

abbrev Telling : Operation → Type 0
Telling f = (c : IceConnection) → Tells c (f c).0 (f c).1

before-Telling : (f g : Operation) → Telling f → Telling g → Telling (f before g)
unfolding ◌before◌
before-Telling f g hf hg c =
    Tells-append c (f c).0 (g (f c).0).0 (f c).1 (g (f c).0).1 (hf c) (hg (f c).0)

rank-eq : (a b : WriteState) → (rank a == rank b) ≡ true → a ≡ b
unfolding rank
rank-eq a b h = ground arith

set_write_state-Telling : (state : WriteState) → Telling (set_write_state state)
unfolding set_write_state
set_write_state-Telling state c = elim (Bool-cases (rank c.write_state == rank state)) [
  | inl e ↦ rw e (rank-eq c.write_state state e, refl)
  | inr e ↦ rw e (refl, refl)
]

set_state-Telling : (state : IceCandidatePairState) → Telling (set_state state)
unfolding set_state
set_state-Telling state c = (refl, refl)

if-Tells :
    (b : Bool) (c : IceConnection) (x y : IceConnection × List Event)
    → Tells c x.0 x.1
    → Tells c y.0 y.1
    → Tells c (if b then x else y).0 (if b then x else y).1
if-Tells true c x y h k = h
if-Tells false c x y h k = k

update_receiving-Telling : (now : ℕ) → Telling (update_receiving now)
unfolding update_receiving
update_receiving-Telling now c = elim (Bool-cases c.receiving) [
  | inl e ↦ elim (Bool-cases (is_receiving now c)) [
    | inl f ↦ rw (e, f) (refl, refl)
    | inr f ↦ rw (e, f) (refl, refl)
  ]
  | inr e ↦ elim (Bool-cases (is_receiving now c)) [
    | inl f ↦ rw (e, f) (refl, refl)
    | inr f ↦ rw (e, f) (refl, refl)
  ]
]

check_writable-Telling : (now : ℕ) → Telling (check_writable now)
unfolding check_writable
check_writable-Telling now c =
    if-Tells
      (is_writable c
        && (too_many_ping_fails connection_write_connect_fails (allowed_rtt c) now c
            && too_long_without_response connection_write_connect_timeout now c))
      c (set_write_state write_unreliable c) (c, []) (set_write_state-Telling write_unreliable c)
      (refl, refl)

by_state-Tells :
    (w : WriteState) (c : IceConnection) (x : IceConnection × List Event)
    → Tells c x.0 x.1
    → let y : IceConnection × List Event = elim w [
      | writable ↦ (c, [])
      | write_timeout ↦ (c, [])
      | _ ↦ x
    ] in
      Tells c y.0 y.1
by_state-Tells writable c x h = (refl, refl)
by_state-Tells write_timeout c x h = (refl, refl)
by_state-Tells write_init c x h = h
by_state-Tells write_unreliable c x h = h

check_timeout-Telling : (now : ℕ) → Telling (check_timeout now)
unfolding check_timeout
check_timeout-Telling now c =
    let late : Bool = too_long_without_response connection_write_timeout now c in
    by_state-Tells c.write_state c (if late then set_write_state write_timeout c else (c, [])) (
      if-Tells late c (set_write_state write_timeout c) (c, [])
        (set_write_state-Telling write_timeout c) (refl, refl))

pub update_state-Tells :
    (now : ℕ) (c : IceConnection) → Tells c (update_state now c).0 (update_state now c).1
unfolding update_state
update_state-Tells now c =
    before-Telling (check_writable now) (check_timeout now before update_receiving now)
      (check_writable-Telling now)
      (before-Telling (check_timeout now) (update_receiving now) (check_timeout-Telling now)
        (update_receiving-Telling now))
      c

pub received_ping_response-Tells :
    (average : ℕ → ℕ → ℕ → ℕ) (rtt now : ℕ) (c : IceConnection)
    → Tells c
        (received_ping_response average rtt now c).0
        (received_ping_response average rtt now c).1
unfolding received_ping_response
received_ping_response-Tells average rtt now c =
    let c' : IceConnection = record c {
      rtt = if ltb 0 c.rtt_samples then average c.rtt rtt rtt_ratio else rtt;
      rtt_samples = suc c.rtt_samples;
      last_ping_response_received = now;
      pings_since_last_response = [];
    } in
    let f : Operation =
      update_receiving now before set_write_state writable before set_state succeeded in
    Tells-Same c c' (f c').0 (f c').1 (refl, refl)
      (before-Telling (update_receiving now) (set_write_state writable before set_state succeeded)
        (update_receiving-Telling now)
        (before-Telling (set_write_state writable) (set_state succeeded)
          (set_write_state-Telling writable) (set_state-Telling succeeded))
        c')
