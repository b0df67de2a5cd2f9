-- ===== src/Channel/Selected.antt =====
-- The selected connection: the channel, the controller and the connections agree on it.
use grtcserver.Base.{
  ℕ, ◌≡◌, ◌∙◌, refl, sym, Option, none, some, true, false, ◌==◌, Bool-cases, inl, inr, ==_iff,
}
use grtcserver.Connection.{IceConnection}
use grtcserver.Controller.{member, set_selected_connection}
use grtcserver.Channel.{IceTransportChannel, put, is_selected, set_selected, unselect}

-- The flag of each connection tells whether it is the selected one, which is one of the
-- controller's connections and the one that the controller knows.
pub record IsSelected (ch : IceTransportChannel) : Type 0 where
  pub flags : (x : ℕ) → (ch.heap x).selected ≡ is_selected x ch.selected_connection
  pub known : ch.ice_controller.selected_connection ≡ ch.selected_connection
  pub there :
      (x : ℕ)
      → is_selected x ch.selected_connection ≡ true
      → member x ch.ice_controller.connections ≡ true

pub put-IsSelected :
    (conn : ℕ) (c : IceConnection) (ch : IceTransportChannel)
    → IsSelected ch
    → IsSelected (put conn c ch)
unfolding put
put-IsSelected conn c ch s = record {
  flags = λ x. elim (Bool-cases (x == conn)) [
    | inl e ↦ rw (e, sym ((==_iff x conn).0 e)) (s.flags x)
    | inr e ↦ rw e (s.flags x)
  ];
  known = s.known;
  there = s.there;
}

unselect-flags :
    (old : Option ℕ) (heap : ℕ → IceConnection)
    → ((x : ℕ) → (heap x).selected ≡ is_selected x old)
    → (x : ℕ) → (unselect old heap x).selected ≡ false
unfolding unselect set_selected is_selected
unselect-flags none heap h x = h x
unselect-flags (some old) heap h x = elim (Bool-cases (x == old)) [
  | inl e ↦ rw e refl
  | inr e ↦ rw e (h x ∙ e)
]

set_selected-flags :
    (new : ℕ) (heap : ℕ → IceConnection)
    → ((x : ℕ) → (heap x).selected ≡ false)
    → (x : ℕ) → (set_selected true new heap x).selected ≡ is_selected x (some new)
unfolding set_selected is_selected
set_selected-flags new heap h x = elim (Bool-cases (x == new)) [
  | inl e ↦ rw e refl
  | inr e ↦ rw e (h x)
]

-- A switch to a connection of the controller.
pub switch-IsSelected :
    (conn : ℕ) (ch : IceTransportChannel)
    → member conn ch.ice_controller.connections ≡ true
    → IsSelected ch
    → IsSelected (record ch {
      selected_connection = some conn;
      heap = set_selected true conn (unselect ch.selected_connection ch.heap);
      ice_controller = set_selected_connection (some conn) ch.ice_controller;
    })
unfolding is_selected set_selected_connection
switch-IsSelected conn ch m s = record {
  flags =
      set_selected-flags conn (unselect ch.selected_connection ch.heap)
        (unselect-flags ch.selected_connection ch.heap s.flags);
  known = refl;
  there = λ x e. rw (sym ((==_iff x conn).0 e)) at m;
}
