-- ===== src/Controller/Removal.antt =====
-- What becomes of the vector of connections when one of them is destroyed.
use grtcserver.Base.{
  ℕ, ◌≡◌, refl, List, [], ◌∷◌, ◌++◌, Option, none, some, false, ◌==◌, arith, ==-refl,
}
use grtcserver.Controller.{IceController, member, set_erase, erase_loop, on_connection_destroyed}

erase_loop_absent : (conn : ℕ) (xs : List ℕ) → member conn xs ≡ false → erase_loop conn xs ≡ some xs
unfolding member erase_loop
erase_loop_absent conn [] h = refl
erase_loop_absent conn (x ∷ []) h = ground arith
erase_loop_absent conn (x ∷ y ∷ ys) h =
    let n : (x == conn) ≡ false = ground arith in
    let rest : erase_loop conn (y ∷ ys) ≡ some (y ∷ ys) =
      erase_loop_absent conn (y ∷ ys) (ground arith) in
    rw (erase_loop, n, rest) refl

-- What is left of the vector, by what stands behind the connection.
unfoldable pub left : List ℕ → List ℕ → Option (List ℕ)
left pre [] = none
left pre (y ∷ ys) = some (pre ++ (y ∷ ys))

later :
    (x : ℕ) (pre rest : List ℕ)
    → elim (left pre rest) [ none ↦ none | some zs ↦ some (x ∷ zs) ] ≡ left (x ∷ pre) rest
unfolding left
later x pre [] = refl
later x pre (y ∷ ys) = refl

erase_loop_at :
    (conn : ℕ) (pre rest : List ℕ)
    → member conn pre ≡ false
    → member conn rest ≡ false
    → erase_loop conn (pre ++ (conn ∷ rest)) ≡ left pre rest
unfolding member erase_loop left
erase_loop_at conn [] [] h k = rw (==-refl conn) refl
erase_loop_at conn [] (y ∷ ys) h k =
    rw (==-refl conn, erase_loop_absent conn ys (ground arith)) refl
erase_loop_at conn (x ∷ []) rest h k =
    let n : (x == conn) ≡ false = ground arith in
    rw (erase_loop, n, erase_loop_at conn [] rest refl k) (later x [] rest)
erase_loop_at conn (x ∷ y ∷ pre) rest h k =
    let n : (x == conn) ≡ false = ground arith in
    rw (erase_loop, n, erase_loop_at conn (y ∷ pre) rest (ground arith) k) (later x (y ∷ pre) rest)

-- Destroying a connection that stands in the vector once drops it from the vector and from both
-- sets, and keeps the order of the others. But if it stands last, the loop passes the end of the
-- vector and has no result.
pub on_connection_destroyed_lem :
    (conn : ℕ) (pre rest : List ℕ) (k : IceController)
    → k.connections ≡ pre ++ (conn ∷ rest)
    → member conn pre ≡ false
    → member conn rest ≡ false
    → on_connection_destroyed conn k ≡ elim rest [
      | [] ↦ none
      | y ∷ ys ↦ some (record k {
        connections = pre ++ (y ∷ ys);
        unpinged_connections = set_erase conn k.unpinged_connections;
        pinged_connections = set_erase conn k.pinged_connections;
      })
    ]
unfolding on_connection_destroyed left
on_connection_destroyed_lem conn pre [] k e h g =
    rw (on_connection_destroyed, e, erase_loop_at conn pre [] h g) refl
on_connection_destroyed_lem conn pre (y ∷ ys) k e h g =
    rw (on_connection_destroyed, e, erase_loop_at conn pre (y ∷ ys) h g) refl
