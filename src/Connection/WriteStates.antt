-- ===== src/Connection/WriteStates.antt =====
-- What update_state and a response do to the write state.
use grtcserver.Base.{
  ℕ, ◌+◌, ◌≤◌, ◌≡◌, ◌⊎◌, inl, inr, refl, List, [], ◌∷◌, Bool, true, false, ltb, ◌&&◌, ◌==◌,
  if◌then◌else◌, arith, Bool-cases, ap,
}
use grtcserver.Connection.{
  IceConnection, SentPing, WriteState, writable, write_unreliable, write_init, write_timeout, rank,
  set_write_state, ◌before◌, is_writable, check_writable, check_timeout, update_state,
  update_receiving, is_receiving, last_received, allowed_rtt, too_many_ping_fails,
  too_long_without_response, connection_write_connect_fails, connection_write_connect_timeout,
  connection_write_timeout,
}
use grtcserver.Connection.Receiving.{update_receiving-value}

pub set_write_state-value :
    (state : WriteState) (c : IceConnection)
    → (set_write_state state c).0 ≡ record c { write_state = state }
unfolding set_write_state
set_write_state-value state c = elim (Bool-cases (rank c.write_state == rank state)) [
  | inl e ↦ rw (set_write_state, e) refl
  | inr e ↦ rw (set_write_state, e) refl
]

pub update_receiving-receiving :
    (now : ℕ) (c : IceConnection)
    → (update_receiving now c).0 ≡ record c { receiving = is_receiving now c }
update_receiving-receiving now c = rw (update_receiving-value now c) refl

-- The condition of the first test.
unfoldable pub unreliable_now : ℕ → IceConnection → Bool
unreliable_now now c =
    too_many_ping_fails connection_write_connect_fails (allowed_rtt c) now c
    && too_long_without_response connection_write_connect_timeout now c

-- The write state after the two tests, by their conditions.
unfoldable pub after_tests : Bool → Bool → WriteState → WriteState
after_tests unreliable late writable =
    if unreliable then (if late then write_timeout else write_unreliable) else writable
after_tests unreliable late write_timeout = write_timeout
after_tests unreliable late write_unreliable = if late then write_timeout else write_unreliable
after_tests unreliable late write_init = if late then write_timeout else write_init

unfoldable pub next_write_state : ℕ → IceConnection → WriteState
unfolding after_tests unreliable_now
next_write_state now c =
    after_tests (unreliable_now now c) (too_long_without_response connection_write_timeout now c)
      c.write_state

check_writable-value :
    (now : ℕ) (c : IceConnection)
    → (check_writable now c).0 ≡ record c {
      write_state =
          if is_writable c && unreliable_now now c then write_unreliable else c.write_state;
    }
unfolding check_writable unreliable_now
check_writable-value now c = elim (Bool-cases (is_writable c && unreliable_now now c)) [
  | inl e ↦ rw (check_writable, e) (set_write_state-value write_unreliable c)
  | inr e ↦ rw (check_writable, e) refl
]

WriteState-cases :
    (s : WriteState)
    → (s ≡ writable) ⊎ (s ≡ write_unreliable) ⊎ (s ≡ write_init) ⊎ (s ≡ write_timeout)
WriteState-cases writable = inl refl
WriteState-cases write_unreliable = inr (inl refl)
WriteState-cases write_init = inr (inr (inl refl))
WriteState-cases write_timeout = inr (inr (inr refl))

after_timeout : ℕ → IceConnection → WriteState
after_timeout now c =
    let late = too_long_without_response connection_write_timeout now c in
    elim c.write_state [
      | writable ↦ writable
      | write_timeout ↦ write_timeout
      | state ↦ (if late then write_timeout else state)
    ]

same_state :
    (c : IceConnection) (s : WriteState) → c.write_state ≡ s → c ≡ record c { write_state = s }
same_state c s e = ap (λ t. record c { write_state = t }) e

check_timeout-value :
    (now : ℕ) (c : IceConnection)
    → (check_timeout now c).0 ≡ record c { write_state = after_timeout now c }
unfolding check_timeout after_timeout
check_timeout-value now c = elim (WriteState-cases c.write_state) [
  | inl e ↦ rw (check_timeout, after_timeout, e) (same_state c writable e)
  | inr (inl e) ↦ elim (Bool-cases (too_long_without_response connection_write_timeout now c)) [
    | inl h ↦ rw (check_timeout, after_timeout, e, h) (set_write_state-value write_timeout c)
    | inr h ↦ rw (check_timeout, after_timeout, e, h) (same_state c write_unreliable e)
  ]
  | inr (inr (inl e)) ↦
      elim (Bool-cases (too_long_without_response connection_write_timeout now c)) [
        | inl h ↦ rw (check_timeout, after_timeout, e, h) (set_write_state-value write_timeout c)
        | inr h ↦ rw (check_timeout, after_timeout, e, h) (same_state c write_init e)
      ]
  | inr (inr (inr e)) ↦ rw (check_timeout, after_timeout, e) (same_state c write_timeout e)
]

both_tests :
    (now : ℕ) (c : IceConnection)
    → after_timeout now (record c {
      write_state =
          if is_writable c && unreliable_now now c then write_unreliable else c.write_state;
    })
      ≡ next_write_state now c
unfolding after_timeout next_write_state after_tests is_writable too_long_without_response
    too_many_ping_fails
both_tests now c = elim (WriteState-cases c.write_state) [
  | inl e ↦ elim (Bool-cases (unreliable_now now c)) [
    | inl h ↦ rw (next_write_state, is_writable, e, h) refl
    | inr h ↦ rw (next_write_state, is_writable, e, h) refl
  ]
  | inr (inl e) ↦ rw (next_write_state, is_writable, e) refl
  | inr (inr (inl e)) ↦ rw (next_write_state, is_writable, e) refl
  | inr (inr (inr e)) ↦ rw (next_write_state, is_writable, e) refl
]

-- update_state changes the write state and receiving alone.
pub update_state-value :
    (now : ℕ) (c : IceConnection)
    → (update_state now c).0
      ≡ record c { write_state = next_write_state now c; receiving = is_receiving now c }
unfolding update_state ◌before◌ is_receiving last_received
update_state-value now c =
    rw (update_state, check_writable-value, check_timeout-value, update_receiving-receiving)
      (ap (λ s. record c { write_state = s; receiving = is_receiving now c }) (both_tests now c))

late_twice :
    (now : ℕ) (c : IceConnection)
    → too_long_without_response connection_write_timeout now c ≡ true
    → too_long_without_response connection_write_connect_timeout now c ≡ true
unfolding too_long_without_response
late_twice now c h = go c.pings_since_last_response h
  where
    go :
        (pings : List SentPing)
        → elim pings [ [] ↦ false | ping ∷ rest ↦ ltb (ping.sent_time + 15000) now ] ≡ true
        → elim pings [ [] ↦ false | ping ∷ rest ↦ ltb (ping.sent_time + 5000) now ] ≡ true
    go [] h = ground arith
    go (ping ∷ rest) h = ground arith

rank-after_tests :
    (unreliable late : Bool) (s : WriteState) → rank s ≤ rank (after_tests unreliable late s)
unfolding rank after_tests
rank-after_tests true true writable = omega arith
rank-after_tests true false writable = omega arith
rank-after_tests false late writable = omega arith
rank-after_tests unreliable late write_timeout = omega arith
rank-after_tests unreliable true write_unreliable = omega arith
rank-after_tests unreliable false write_unreliable = omega arith
rank-after_tests unreliable true write_init = omega arith
rank-after_tests unreliable false write_init = omega arith

after_tests-same :
    (unreliable late : Bool) (s : WriteState)
    → (after_tests unreliable late s ≡ s) ⊎ (unreliable ≡ true) ⊎ (late ≡ true)
unfolding after_tests
after_tests-same true late s = inr (inl refl)
after_tests-same false true s = inr (inr refl)
after_tests-same false false writable = inl refl
after_tests-same false false write_unreliable = inl refl
after_tests-same false false write_init = inl refl
after_tests-same false false write_timeout = inl refl

unreliable_late :
    (now : ℕ) (c : IceConnection)
    → unreliable_now now c ≡ true
    → too_long_without_response connection_write_connect_timeout now c ≡ true
unfolding unreliable_now
unreliable_late now c h = ground arith

-- update_state never makes the write state better, changes it only if the first ping without a
-- response waited for more than CONNECTION_WRITE_CONNECT_TIMEOUT, and beside it changes nothing
-- but receiving.
pub update_state_lem :
    (now : ℕ) (c : IceConnection)
    → let c' = (update_state now c).0 in
      (c' ≡ record c { write_state = c'.write_state; receiving = is_receiving now c })
      × (rank c.write_state ≤ rank c'.write_state)
      × ((c'.write_state ≡ c.write_state)
          ⊎ (too_long_without_response connection_write_connect_timeout now c ≡ true))
unfolding next_write_state
update_state_lem now c =
    let u : Bool = unreliable_now now c in
    let late : Bool = too_long_without_response connection_write_timeout now c in
    rw (update_state-value now c) (
      refl,
      rank-after_tests u late c.write_state,
      elim (after_tests-same u late c.write_state) [
        | inl e ↦ inl e
        | inr (inl e) ↦ inr (unreliable_late now c e)
        | inr (inr e) ↦ inr (late_twice now c e)
      ],
    )
