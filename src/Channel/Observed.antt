-- ===== src/Channel/Observed.antt =====
-- What an observer of the signals knows of the channel.
use grtcserver.Base.{
  ℕ, ◌*◌, ◌≡◌, ◌∙◌, refl, sym, ap, List, [], ◌∷◌, ◌++◌, Option, none, some, Bool, true, false, not,
  ◌==◌, arith, Bool-cases, inl, inr, ◌⊎◌, if◌then◌else◌, ==_iff,
}
use grtcserver.Controller.{has_pingable_connection}
use grtcserver.Channel.{
  IceTransportChannel, Signal, writable_state, receiving_state, start_timer, stop_timer, is_same,
  set_writable, set_receiving, update_channel_state, selected_writable, any_receiving,
  maybe_start_pinging, set_ping_interval,
}

-- A signal without a value says that the value has changed; the timer runs with an interval.
pub record View : Type 0 where
  pub writable : Bool
  pub receiving : Bool
  pub timer : Option ℕ

abbrev pub first_view : View
first_view = record { writable = false; receiving = false; timer = none }

abbrev pub seen : View → List Signal → View
seen v [] = v
seen v (writable_state ∷ signals) = seen (record v { writable = not v.writable }) signals
seen v (receiving_state ∷ signals) = seen (record v { receiving = not v.receiving }) signals
seen v (start_timer interval ∷ signals) = seen (record v { timer = some interval }) signals
seen v (stop_timer ∷ signals) = seen (record v { timer = none }) signals

pub seen-append : (v : View) (xs ys : List Signal) → seen v (xs ++ ys) ≡ seen (seen v xs) ys
seen-append v [] ys = refl
seen-append v (writable_state ∷ xs) ys = seen-append (record v { writable = not v.writable }) xs ys
seen-append v (receiving_state ∷ xs) ys =
    seen-append (record v { receiving = not v.receiving }) xs ys
seen-append v (start_timer interval ∷ xs) ys =
    seen-append (record v { timer = some interval }) xs ys
seen-append v (stop_timer ∷ xs) ys = seen-append (record v { timer = none }) xs ys

-- The timer in microseconds.
abbrev pub timer_of : Bool → ℕ → Option ℕ
timer_of start_pinging interval = if start_pinging then some (interval * 1000) else none

abbrev pub view_of : IceTransportChannel → View
view_of ch = record {
  writable = ch.writable;
  receiving = ch.receiving;
  timer = timer_of ch.start_pinging ch.cur_ping_interval;
}

abbrev pub IsTold : IceTransportChannel → Type 0
IsTold ch = seen first_view ch.signals ≡ view_of ch

-- Further signals, for an observer who knew the view.
then_sees :
    (xs ys : List Signal) (v : View)
    → seen first_view xs ≡ v
    → seen first_view (xs ++ ys) ≡ seen v ys
then_sees xs ys v h = seen-append first_view xs ys ∙ ap (λ u. seen u ys) h

is_same-eq : (a b : Bool) → is_same a b ≡ true → a ≡ b
unfolding is_same
is_same-eq true b h = sym h
is_same-eq false true h = h
is_same-eq false false h = refl

is_same-not : (a b : Bool) → is_same a b ≡ false → not a ≡ b
unfolding is_same
is_same-not true b h = sym h
is_same-not false true h = refl
is_same-not false false h = absurd (ground arith)

set_writable-IsTold :
    (b : Bool) (ch : IceTransportChannel)
    → IsTold ch
    → (signals : List Signal) × (set_writable b ch ≡ record ch { writable = b; signals = signals })
      × (seen first_view signals ≡ record (view_of ch) { writable = b })
unfolding set_writable
set_writable-IsTold b ch h = elim (Bool-cases (is_same ch.writable b)) [
  | inl e ↦
      let value : ch.writable ≡ b = is_same-eq ch.writable b e in
      (
        ch.signals,
        rw e (ap (λ v. record ch { writable = v }) value),
        h ∙ ap (λ v. record (view_of ch) { writable = v }) value,
      )
  | inr e ↦ (
    ch.signals ++ writable_state ∷ [],
    rw e refl,
    then_sees ch.signals (writable_state ∷ []) (view_of ch) h
        ∙ ap (λ v. record (view_of ch) { writable = v }) (is_same-not ch.writable b e),
  )
]

set_receiving-IsTold :
    (b : Bool) (ch : IceTransportChannel)
    → IsTold ch
    → (signals : List Signal) × (set_receiving b ch
        ≡ record ch { receiving = b; signals = signals })
      × (seen first_view signals ≡ record (view_of ch) { receiving = b })
unfolding set_receiving
set_receiving-IsTold b ch h = elim (Bool-cases (is_same ch.receiving b)) [
  | inl e ↦
      let value : ch.receiving ≡ b = is_same-eq ch.receiving b e in
      (
        ch.signals,
        rw e (ap (λ v. record ch { receiving = v }) value),
        h ∙ ap (λ v. record (view_of ch) { receiving = v }) value,
      )
  | inr e ↦ (
    ch.signals ++ receiving_state ∷ [],
    rw e refl,
    then_sees ch.signals (receiving_state ∷ []) (view_of ch) h
        ∙ ap (λ v. record (view_of ch) { receiving = v }) (is_same-not ch.receiving b e),
  )
]

-- update_channel_state writes two fields and raises what tells of them.
pub update_channel_state-IsTold :
    (ch : IceTransportChannel)
    → IsTold ch
    → (signals : List Signal) × (update_channel_state ch ≡ record ch {
      writable = selected_writable ch.heap ch.selected_connection;
      receiving = any_receiving ch.heap ch.ice_controller.connections;
      signals = signals;
    })
      × IsTold (update_channel_state ch)
unfolding update_channel_state
update_channel_state-IsTold ch h =
    let b : Bool = selected_writable ch.heap ch.selected_connection in
    let r : Bool = any_receiving ch.heap ch.ice_controller.connections in
    let (signals, e, told) = set_writable-IsTold b ch h in
    let ch' : IceTransportChannel = record ch { writable = b; signals = signals } in
    let (signals', e', told') = set_receiving-IsTold r ch' told in
    (signals', ap (set_receiving r) e ∙ e', rw (e, e') told')

unfoldable started : IceTransportChannel → IceTransportChannel
started ch = record ch {
  start_pinging = true;
  signals = ch.signals ++ start_timer (ch.cur_ping_interval * 1000) ∷ [];
}

maybe_start_pinging-cases :
    (now : ℕ) (ch : IceTransportChannel)
    → (maybe_start_pinging now ch ≡ ch) ⊎ (maybe_start_pinging now ch ≡ started ch)
unfolding maybe_start_pinging started
maybe_start_pinging-cases now ch = elim (Bool-cases ch.start_pinging) [
  | inl e ↦ inl (rw e refl)
  | inr e ↦ elim (Bool-cases (has_pingable_connection ch.heap now ch.ice_controller)) [
    | inl p ↦ inr (rw (e, p) refl)
    | inr p ↦ inl (rw (e, p) refl)
  ]
]

-- maybe_start_pinging writes one field and starts the timer with it.
pub maybe_start_pinging-IsTold :
    (now : ℕ) (ch : IceTransportChannel)
    → IsTold ch
    → (signals : List Signal) × (start : Bool) × (maybe_start_pinging now ch
        ≡ record ch { start_pinging = start; signals = signals })
      × IsTold (maybe_start_pinging now ch)
      × (ch.start_pinging ≡ true → start ≡ true)
unfolding started
maybe_start_pinging-IsTold now ch h = elim (maybe_start_pinging-cases now ch) [
  | inl e ↦ (ch.signals, ch.start_pinging, e, rw e h, λ on. on)
  | inr e ↦ (
    ch.signals ++ start_timer (ch.cur_ping_interval * 1000) ∷ [],
    true,
    e,
    rw e (then_sees ch.signals (start_timer (ch.cur_ping_interval * 1000) ∷ []) (view_of ch) h),
    λ on. refl,
  )
]

-- While the timer runs, set_ping_interval keeps it in step.
pub set_ping_interval-IsTold :
    (interval : ℕ) (ch : IceTransportChannel)
    → ch.start_pinging ≡ true
    → IsTold ch
    → (signals : List Signal) × (set_ping_interval interval ch
        ≡ record ch { cur_ping_interval = interval; signals = signals })
      × IsTold (set_ping_interval interval ch)
unfolding set_ping_interval
set_ping_interval-IsTold interval ch on h = elim (Bool-cases (ch.cur_ping_interval == interval)) [
  | inl e ↦
      let value : ch.cur_ping_interval ≡ interval = (==_iff ch.cur_ping_interval interval).0 e in
      (ch.signals, rw e (ap (λ v. record ch { cur_ping_interval = v }) value), rw e h)
  | inr e ↦
      let more : List Signal = stop_timer ∷ start_timer (interval * 1000) ∷ [] in
      (
        ch.signals ++ more,
        rw e refl,
        rw e (
            then_sees ch.signals more (view_of ch) h
            ∙ ap (λ v. record (view_of ch) { timer = if v then some (interval * 1000) else none })
                (sym on)),
      )
]
