-- ===== src/Controller/Pings.antt =====
-- The connection that is pinged next waited longest.
use grtcserver.Base.{
  ℕ, ◌≤◌, ◌<◌, ◌≡◌, ◌⊎◌, inl, inr, refl, sym, ◌∙◌, List, [], ◌∷◌, Option, none, some, true, false,
  ◌==◌, ltb, arith, Bool-cases, ==_iff, eq_of_some,
}
use grtcserver.Connection.{IceConnection, is_writable}
use grtcserver.Controller.{
  IceController, member, unpin, is_pingable, more_pingable, find_most_pingable, due_selected,
  if_due, find_next_pingable_connection, is_connection_past_ping_interval,
}
use grtcserver.Controller.Sets.{member-insert_all}
use grtcserver.Controller.Parts.{IsParted}

module _ (heap : ℕ → IceConnection) (now : ℕ) (k : IceController) where
  -- What the loop finds in a list: a connection that was pinged no later than the given time, from
  -- the list or found before.
  abbrev Finds : Option ℕ → List ℕ → ℕ → Type 0
  Finds found xs time =
      (conn : ℕ) × (find_most_pingable heap now k found xs ≡ some conn)
      × ((heap conn).last_ping_sent ≤ time)
      × (((member conn xs ≡ true) × (is_pingable heap now k conn ≡ true)) ⊎ (found ≡ some conn))

  weaken :
      (found before : Option ℕ) (x : ℕ) (xs : List ℕ) (early late : ℕ)
      → early ≤ late
      → find_most_pingable heap now k before (x ∷ xs) ≡ find_most_pingable heap now k found xs
      → (found ≡ before) ⊎ ((found ≡ some x) × (is_pingable heap now k x ≡ true))
      → Finds found xs early
      → Finds before (x ∷ xs) late
  unfolding member
  weaken found before x xs early late l e o (conn, r, t, w) = (
    conn,
    e ∙ r,
    omega arith,
    elim w [
      | inl (m, p) ↦ inl (ground arith, p)
      | inr h ↦ elim o [
        | inl same ↦ inr (sym same ∙ h)
        | inr (new, p) ↦
            (let u : x ≡ conn = eq_of_some (sym new ∙ h) in inl (rw u (ground arith), rw u at p))
      ]
    ],
  )

  keep : (xs : List ℕ) (f : ℕ) → Finds (some f) xs (heap f).last_ping_sent
  unfolding find_most_pingable more_pingable
  keep [] f = (f, refl, omega arith, inr refl)
  keep (x ∷ xs) f = elim (Bool-cases (is_pingable heap now k x)) [
    | inl p ↦ elim (Bool-cases (ltb (heap x).last_ping_sent (heap f).last_ping_sent)) [
      | inl m ↦
          (let l : (heap x).last_ping_sent < (heap f).last_ping_sent = ground arith in
            weaken (some x) (some f) x xs _ _ (omega arith) (rw (find_most_pingable, p, m) refl)
              (inr (refl, p)) (keep xs x))
      | inr m ↦
          weaken (some f) (some f) x xs _ _ (omega arith) (rw (find_most_pingable, p, m) refl)
            (inl refl) (keep xs f)
    ]
    | inr p ↦
        weaken (some f) (some f) x xs _ _ (omega arith) (rw (find_most_pingable, p) refl) (inl refl)
          (keep xs f)
  ]

  -- One round takes the connection or leaves what was found.
  round :
      (found : Option ℕ) (x : ℕ) (xs : List ℕ)
      → ((is_pingable heap now k x ≡ true)
          × (find_most_pingable heap now k found (x ∷ xs)
              ≡ find_most_pingable heap now k (some x) xs))
        ⊎ ((find_most_pingable heap now k found (x ∷ xs) ≡ find_most_pingable heap now k found xs)
            × ((is_pingable heap now k x ≡ false)
                ⊎ ((f : ℕ) × (found ≡ some f)
                    × ((heap f).last_ping_sent ≤ (heap x).last_ping_sent))))
  unfolding find_most_pingable more_pingable
  round none x xs = elim (Bool-cases (is_pingable heap now k x)) [
    | inl p ↦ inl (p, rw (find_most_pingable, p) refl)
    | inr p ↦ inr (rw (find_most_pingable, p) refl, inl p)
  ]
  round (some f) x xs = elim (Bool-cases (is_pingable heap now k x)) [
    | inl p ↦ elim (Bool-cases (ltb (heap x).last_ping_sent (heap f).last_ping_sent)) [
      | inl m ↦ inl (p, rw (find_most_pingable, p, m) refl)
      | inr m ↦ inr (rw (find_most_pingable, p, m) refl, inr (f, refl, ground arith))
    ]
    | inr p ↦ inr (rw (find_most_pingable, p) refl, inl p)
  ]

  seek_head :
      (xs : List ℕ) (found : Option ℕ) (x : ℕ)
      → is_pingable heap now k x ≡ true
      → Finds found (x ∷ xs) (heap x).last_ping_sent
  seek_head xs found x p = elim (round found x xs) [
    | inl (_, e) ↦
        weaken (some x) found x xs (heap x).last_ping_sent (heap x).last_ping_sent (omega arith) e
          (inr (refl, p)) (keep xs x)
    | inr (e, inl n) ↦ absurd (ground arith)
    | inr (e, inr (f, h, l)) ↦
        weaken found found x xs (heap f).last_ping_sent (heap x).last_ping_sent l e (inl refl)
          (rw h (keep xs f))
  ]

  -- A pingable connection of the list is found, or one that was pinged no later.
  seek :
      (xs : List ℕ) (found : Option ℕ) (other : ℕ)
      → member other xs ≡ true
      → is_pingable heap now k other ≡ true
      → Finds found xs (heap other).last_ping_sent
  unfolding member
  seek [] found other m p = ground arith
  seek (x ∷ xs) found other m p = elim (Bool-cases (other == x)) [
    | inl h ↦ (let u : other ≡ x = (==_iff other x).0 h in rw u (seek_head xs found x (rw u at p)))
    | inr h ↦ elim (round found x xs) [
      | inl (q, e) ↦
          weaken (some x) found x xs (heap other).last_ping_sent (heap other).last_ping_sent
            (omega arith) e (inr (refl, q)) (seek xs (some x) other (rw h at m) p)
      | inr (e, _) ↦
          weaken found found x xs (heap other).last_ping_sent (heap other).last_ping_sent
            (omega arith) e (inl refl) (seek xs found other (rw h at m) p)
    ]
  ]

-- The selected connection has its turn: it is writable, and its last ping is long enough ago.
abbrev pub IsDue : (ℕ → IceConnection) → ℕ → IceController → ℕ → Type 0
IsDue heap now k conn =
    (k.selected_connection ≡ some conn)
    × (is_writable (heap conn) ≡ true)
    × (is_connection_past_ping_interval heap now (heap conn) k ≡ true)

-- There is none that has.
abbrev pub IsNoneDue : (ℕ → IceConnection) → ℕ → IceController → Option ℕ → Type 0
IsNoneDue heap now k none = Unit {0}
IsNoneDue heap now k (some conn) =
    (is_writable (heap conn) ≡ false)
    ⊎ (is_connection_past_ping_interval heap now (heap conn) k ≡ false)

if_due_lem :
    (heap : ℕ → IceConnection) (now : ℕ) (k : IceController) (o : Option ℕ)
    → ((conn : ℕ) × (if_due heap now k o ≡ some conn)
        × ((o ≡ some conn)
            × (is_writable (heap conn) ≡ true)
            × (is_connection_past_ping_interval heap now (heap conn) k ≡ true)))
      ⊎ ((if_due heap now k o ≡ none) × IsNoneDue heap now k o)
unfolding if_due
if_due_lem heap now k none = inr (refl, tt)
if_due_lem heap now k (some conn) = elim (Bool-cases (is_writable (heap conn))) [
  | inl w ↦ elim (Bool-cases (is_connection_past_ping_interval heap now (heap conn) k)) [
    | inl t ↦ inl (conn, rw (w, t) refl, (refl, w, t))
    | inr t ↦ inr (rw (w, t) refl, inr t)
  ]
  | inr w ↦ inr (rw w refl, inl w)
]

due_selected_lem :
    (heap : ℕ → IceConnection) (now : ℕ) (k : IceController)
    → ((conn : ℕ) × (due_selected heap now k ≡ some conn) × IsDue heap now k conn)
      ⊎ ((due_selected heap now k ≡ none) × IsNoneDue heap now k k.selected_connection)
unfolding due_selected
due_selected_lem heap now k = if_due_lem heap now k k.selected_connection

-- Where the two sets part the connections, and some connection may be pinged, one is found. It is
-- the selected one, which is writable and whose ping interval is past; or the selected one, if
-- there is one, is not writable or its interval is not past, and the connection that is found is
-- one of the connections that may be pinged, and was pinged no later than any other that may.
pub find_next_pingable_connection_lem :
    (heap : ℕ → IceConnection) (now : ℕ) (k : IceController) (other : ℕ)
    → IsParted k
    → member other k.connections ≡ true
    → is_pingable heap now k other ≡ true
    → (conn : ℕ) × ((find_next_pingable_connection heap now k).0 ≡ some conn)
      × (IsDue heap now k conn
          ⊎ (IsNoneDue heap now k k.selected_connection
              × (member conn k.connections ≡ true)
              × (is_pingable heap now k conn ≡ true)
              × ((heap conn).last_ping_sent ≤ (heap other).last_ping_sent)))
unfolding find_next_pingable_connection unpin
find_next_pingable_connection_lem heap now k other parted m p = elim (due_selected_lem heap now k) [
  | inl (conn, e, due) ↦ (conn, rw (find_next_pingable_connection, e) refl, inl due)
  | inr (e, none_due) ↦
      (let all : (x : ℕ) → member x (unpin k).unpinged_connections ≡ member x k.connections = λ x.
          member-insert_all x k.pinged_connections k.unpinged_connections
          ∙ (sym (parted.covered x ∙ ground arith)) in
        let (conn, r, t, w) =
          seek heap now k (unpin k).unpinged_connections none other (all other ∙ m) p in
        (
          conn,
          rw (find_next_pingable_connection, e) r,
          elim w [
            | inl (h, q) ↦ inr (none_due, sym (all conn) ∙ h, q, t)
            | inr h ↦ absurd (ground arith)
          ],
        ))
]
