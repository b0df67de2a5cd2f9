-- ===== src/Connection/Response.antt =====
-- What a response to a ping brings about.
use grtcserver.Base.{ℕ, suc, ◌≤◌, ◌<◌, ◌≡◌, refl, [], true, false, ltb, if◌then◌else◌, arith, inr}
use grtcserver.Connection.{
  IceConnection, writable, succeeded, weak, is_writable, last_received, is_receiving, set_state,
  ◌before◌, received_ping_response, update_state, rtt_ratio, too_long_without_response,
  too_many_ping_fails,
}
use grtcserver.Connection.Receiving.{is_receiving_iff, last_received_bound}
use grtcserver.Connection.WriteStates.{
  set_write_state-value, update_receiving-receiving, update_state-value, next_write_state,
  after_tests, unreliable_now,
}

module _ (average : ℕ → ℕ → ℕ → ℕ) where
  unfoldable pub answered : ℕ → ℕ → IceConnection → IceConnection
  answered rtt now c = record c {
    rtt = if ltb 0 c.rtt_samples then average c.rtt rtt rtt_ratio else rtt;
    rtt_samples = suc c.rtt_samples;
    last_ping_response_received = now;
    pings_since_last_response = [];
  }

  pub received_ping_response-value :
      (rtt now : ℕ) (c : IceConnection)
      → (received_ping_response average rtt now c).0 ≡ record (answered rtt now c) {
        receiving = is_receiving now (answered rtt now c);
        write_state = writable;
        state = succeeded;
      }
  unfolding received_ping_response ◌before◌ set_state answered
  received_ping_response-value rtt now c =
      rw (received_ping_response, set_write_state-value, update_receiving-receiving) refl

  -- After a ping is answered at a time above 0 the connection is writable and receiving, so it is
  -- not weak, its check has succeeded, no ping is counted as unanswered, and no later
  -- update_state makes it less than writable before another ping is sent.
  pub received_ping_response_lem :
      (rtt now later : ℕ) (c : IceConnection)
      → 0 < now
      → let c' = (received_ping_response average rtt now c).0 in
        (c'.write_state ≡ writable)
        × (c'.state ≡ succeeded)
        × (c'.pings_since_last_response ≡ [])
        × (weak c' ≡ false)
        × ((update_state later c').0.write_state ≡ writable)
  unfolding weak is_writable answered next_write_state after_tests unreliable_now
      too_many_ping_fails too_long_without_response
  received_ping_response_lem rtt now later c h =
      let r : is_receiving now (answered rtt now c) ≡ true =
        (let b : now ≤ last_received (answered rtt now c) =
            last_received_bound (answered rtt now c) in
          let (to, from) = is_receiving_iff now (answered rtt now c) in
          from (inr (omega arith, omega arith))) in
      rw (received_ping_response-value rtt now c, r, update_state-value later)
        (refl, refl, refl, refl, refl)
