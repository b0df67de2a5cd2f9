-- ===== src/Controller/Parts.antt =====
-- The pinged and the unpinged connections part the connections between them.
use grtcserver.Base.{
  ℕ, ◌≡◌, refl, ◌∙◌, List, Option, some, Bool, true, false, ◌&&◌, ◌||◌, ◌==◌, arith, Bool-cases,
  Option-cases, inl, inr, ==_iff,
}
use grtcserver.Connection.{IceConnection}
use grtcserver.Controller.{
  IceController, new_controller, member, add_connection, mark_connection_pinged, unpin,
  set_selected_connection, find_next_pingable_connection, due_selected, sort_and_switch_connection,
}
use grtcserver.Controller.Sets.{
  IsAscending, member-set_insert, member-set_erase, member-insert_all, member-append,
  set_insert-IsAscending, set_erase-IsAscending, insert_all-IsAscending,
}
use grtcserver.Controller.Selection.{IsSort}

pub record IsParted (k : IceController) : Type 0 where
  pub unpinged_set : IsAscending k.unpinged_connections
  pub pinged_set : IsAscending k.pinged_connections
  pub covered :
      (x : ℕ)
      → member x k.connections ≡ (member x k.unpinged_connections || member x k.pinged_connections)
  pub apart : (x : ℕ) → (member x k.unpinged_connections && member x k.pinged_connections) ≡ false

-- What the channel does with its controller, but for the destruction of connections: a new
-- connection is added, a connection that is there is pinged, one is selected, the next to ping is
-- looked for, the connections are sorted.
pub data Reachable (heap : ℕ → ℕ → IceConnection) (stable_sort : (ℕ → ℕ → Bool) → List ℕ → List ℕ)
    : IceController → Type 0 where
  start : Reachable heap stable_sort new_controller
  add :
      {k : IceController} (conn : ℕ)
      → member conn k.connections ≡ false
      → Reachable heap stable_sort k
      → Reachable heap stable_sort (add_connection conn k)
  mark :
      {k : IceController} (conn : ℕ)
      → member conn k.connections ≡ true
      → Reachable heap stable_sort k
      → Reachable heap stable_sort (mark_connection_pinged (some conn) k)
  select :
      {k : IceController} (conn : Option ℕ)
      → Reachable heap stable_sort k
      → Reachable heap stable_sort (set_selected_connection conn k)
  find :
      {k : IceController} (now : ℕ)
      → Reachable heap stable_sort k
      → Reachable heap stable_sort (find_next_pingable_connection (heap now) now k).1
  sort :
      {k : IceController} (now : ℕ)
      → Reachable heap stable_sort k
      → Reachable heap stable_sort (sort_and_switch_connection (heap now) stable_sort k).1

new_controller-IsParted : IsParted new_controller
unfolding new_controller member
new_controller-IsParted = record {
  unpinged_set = tt;
  pinged_set = tt;
  covered = λ x. refl;
  apart = λ x. refl;
}

add_connection-IsParted :
    (conn : ℕ) (k : IceController)
    → member conn k.connections ≡ false
    → IsParted k
    → IsParted (add_connection conn k)
unfolding add_connection
add_connection-IsParted conn k fresh p = record {
  unpinged_set = set_insert-IsAscending conn k.unpinged_connections p.unpinged_set;
  pinged_set = p.pinged_set;
  covered = λ x. ground (
    arith,
    member-append x conn k.connections,
    member-set_insert x conn k.unpinged_connections,
    p.covered x,
  );
  apart = λ x. elim (Bool-cases (x == conn)) [
    | inl e ↦
        (let u : x ≡ conn = (==_iff x conn).0 e in
          let c : member conn k.connections
              ≡ (member conn k.unpinged_connections || member conn k.pinged_connections) =
            p.covered conn in
          rw (member-set_insert x conn k.unpinged_connections, u) (ground arith))
    | inr e ↦ rw (member-set_insert x conn k.unpinged_connections, e) (p.apart x)
  ];
}

mark_connection_pinged-IsParted :
    (conn : ℕ) (k : IceController)
    → member conn k.connections ≡ true
    → IsParted k
    → IsParted (mark_connection_pinged (some conn) k)
unfolding mark_connection_pinged
mark_connection_pinged-IsParted conn k here p =
    elim (Bool-cases (member conn k.pinged_connections)) [
      | inl e ↦ rw (mark_connection_pinged, e) p
      | inr e ↦
          rw (mark_connection_pinged, e)
            (record {
              unpinged_set = set_erase-IsAscending conn k.unpinged_connections p.unpinged_set;
              pinged_set = set_insert-IsAscending conn k.pinged_connections p.pinged_set;
              covered = λ x. elim (Bool-cases (x == conn)) [
                | inl h ↦
                    (let u : x ≡ conn = (==_iff x conn).0 h in
                      rw (member-set_insert x conn k.pinged_connections, u) (ground (arith, here)))
                | inr h ↦
                    rw
                      (
                        member-set_insert x conn k.pinged_connections,
                        member-set_erase x conn k.unpinged_connections p.unpinged_set,
                        h,
                      )
                      (p.covered x)
              ];
              apart = λ x. elim (Bool-cases (x == conn)) [
                | inl h ↦ rw (member-set_erase x conn k.unpinged_connections p.unpinged_set, h) refl
                | inr h ↦
                    rw
                      (
                        member-set_insert x conn k.pinged_connections,
                        member-set_erase x conn k.unpinged_connections p.unpinged_set,
                        h,
                      )
                      (p.apart x)
              ];
            })
    ]

unpin-IsParted : (k : IceController) → IsParted k → IsParted (unpin k)
unfolding unpin member
unpin-IsParted k p = record {
  unpinged_set = insert_all-IsAscending k.pinged_connections k.unpinged_connections p.unpinged_set;
  pinged_set = tt;
  covered = λ x.
      p.covered x
      ∙ rw (member-insert_all x k.pinged_connections k.unpinged_connections) (ground arith);
  apart = λ x. ground arith;
}

find-IsParted :
    (heap : ℕ → IceConnection) (now : ℕ) (k : IceController)
    → IsParted k
    → IsParted (find_next_pingable_connection heap now k).1
unfolding find_next_pingable_connection
find-IsParted heap now k p = elim (Option-cases (due_selected heap now k)) [
  | inl e ↦ rw (find_next_pingable_connection, e) (unpin-IsParted k p)
  | inr (conn, e) ↦ rw (find_next_pingable_connection, e) p
]

-- With a sort that keeps the elements, while the channel adds new connections, pings, selects,
-- looks for and sorts them: each connection is in one of the two sets of the controller and in
-- one only, and the sets hold no others.
pub Reachable-IsParted :
    (heap : ℕ → ℕ → IceConnection) (stable_sort : (ℕ → ℕ → Bool) → List ℕ → List ℕ)
    {k : IceController}
    → IsSort stable_sort
    → Reachable heap stable_sort k
    → IsParted k
unfolding set_selected_connection sort_and_switch_connection
Reachable-IsParted heap stable_sort laws start = new_controller-IsParted
Reachable-IsParted heap stable_sort laws (add {k} conn fresh r) =
    add_connection-IsParted conn k fresh (Reachable-IsParted heap stable_sort laws r)
Reachable-IsParted heap stable_sort laws (mark {k} conn here r) =
    mark_connection_pinged-IsParted conn k here (Reachable-IsParted heap stable_sort laws r)
Reachable-IsParted heap stable_sort laws (select {k} conn r) =
    let p : IsParted k = Reachable-IsParted heap stable_sort laws r in
    record {
      unpinged_set = p.unpinged_set;
      pinged_set = p.pinged_set;
      covered = p.covered;
      apart = p.apart;
    }
Reachable-IsParted heap stable_sort laws (find {k} now r) =
    find-IsParted (heap now) now k (Reachable-IsParted heap stable_sort laws r)
Reachable-IsParted heap stable_sort laws (sort {k} now r) =
    let p : IsParted k = Reachable-IsParted heap stable_sort laws r in
    record {
      unpinged_set = p.unpinged_set;
      pinged_set = p.pinged_set;
      covered = λ x. laws.keeps _ k.connections x ∙ p.covered x;
      apart = p.apart;
    }
