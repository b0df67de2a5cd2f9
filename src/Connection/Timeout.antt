-- ===== src/Connection/Timeout.antt =====
-- A connection that hears nothing is given up.
use grtcserver.Base.{
  ℕ, ◌+◌, ◌*◌, ◌^◌, ◌≤◌, ◌<◌, ◌≡◌, ◌≢◌, ◌⊎◌, inl, inr, refl, List, ◌∷◌, some, Bool, true, false,
  ltb, arith, Bool-cases, length, get_elem?,
}
use grtcserver.Connection.{
  IceConnection, SentPing, WriteState, writable, write_unreliable, write_init, write_timeout,
  active, update_state, allowed_rtt, too_many_ping_fails, too_long_without_response,
  connection_write_timeout, connection_write_connect_timeout, connection_write_connect_fails,
  max_rtt, min_rtt,
}
use grtcserver.Connection.Clock.{too_many_ping_fails-early}
use grtcserver.Connection.WriteStates.{
  update_state-value, next_write_state, after_tests, unreliable_now,
}

allowed_rtt_bound : (c : IceConnection) → allowed_rtt c ≤ max_rtt
unfolding allowed_rtt
allowed_rtt_bound c = elim (Bool-cases (ltb (2 * c.rtt) min_rtt)) [
  | inl e ↦ rw (allowed_rtt, e) (omega arith)
  | inr e ↦ rw (allowed_rtt, e) (omega arith)
]

-- Five pings were sent, the fifth more than MAX_RTT ago, while the clock fits an int.
pub record IsUnanswered (now : ℕ) (c : IceConnection) : Type 0 where
  pub fifth : SentPing
  pub enough : connection_write_connect_fails ≤ length c.pings_since_last_response
  pub found : get_elem? c.pings_since_last_response 4 ≡ some fifth
  pub past : fifth.sent_time + max_rtt < now
  pub fits : fifth.sent_time + max_rtt < 2 ^ 31

fails :
    (now : ℕ) (c : IceConnection)
    → IsUnanswered now c
    → too_many_ping_fails connection_write_connect_fails (allowed_rtt c) now c ≡ true
fails now c u =
    let b : allowed_rtt c ≤ max_rtt = allowed_rtt_bound c in
    let p : u.fifth.sent_time + max_rtt < now = u.past in
    let f : u.fifth.sent_time + max_rtt < 2 ^ 31 = u.fits in
    let l : u.fifth.sent_time + allowed_rtt c < now = omega arith in
    rw
      (too_many_ping_fails-early connection_write_connect_fails (allowed_rtt c) now c u.fifth
        u.enough u.found (omega arith))
      (ground arith)

after_tests-late :
    (unreliable : Bool) (s : WriteState)
    → (s ≢ writable) ⊎ (unreliable ≡ true)
    → after_tests unreliable true s ≡ write_timeout
unfolding after_tests
after_tests-late true writable h = refl
after_tests-late false writable (inl n) = elim (n refl) [ ]
after_tests-late false writable (inr e) = ground arith
after_tests-late unreliable write_unreliable h = refl
after_tests-late unreliable write_init h = refl
after_tests-late unreliable write_timeout h = refl

-- One update_state gives a connection up, whatever its write state, if its first ping waits for
-- more than CONNECTION_WRITE_TIMEOUT and, should it be writable, five pings are unanswered, the
-- fifth for more than MAX_RTT on a clock that fits an int.
pub update_state-timeout :
    (now : ℕ) (c : IceConnection) (first : SentPing) (rest : List SentPing)
    → c.pings_since_last_response ≡ first ∷ rest
    → first.sent_time + connection_write_timeout < now
    → (c.write_state ≢ writable) ⊎ IsUnanswered now c
    → ((update_state now c).0.write_state ≡ write_timeout) × (active (update_state now c).0 ≡ false)
unfolding next_write_state unreliable_now too_long_without_response active
update_state-timeout now c first rest e h u =
    let late : too_long_without_response connection_write_timeout now c ≡ true =
      rw (too_long_without_response, e) (ground arith) in
    let waited : too_long_without_response connection_write_connect_timeout now c ≡ true =
      rw (too_long_without_response, e) (ground arith) in
    let t : next_write_state now c ≡ write_timeout =
      rw (next_write_state, late)
        (after_tests-late (unreliable_now now c) c.write_state (elim u [
          | inl n ↦ inl n
          | inr f ↦ inr (rw (unreliable_now, fails now c f, waited) refl)
        ])) in
    rw (update_state-value now c) (t, rw (active, t) refl)
