-- ===== src/Controller/Order.antt =====
-- The comparison of connections is one of four numbers in turn.
use grtcserver.Base.{
  ℕ, ◌<◌, ◌≡◌, ◌↔◌, ◌⊎◌, inl, inr, refl, Bool, true, false, not, ◌&&◌, ◌==◌, ltb, if◌then◌else◌,
  arith, Bool-cases,
}
use grtcserver.Connection.{
  IceConnection, WriteState, writable, write_unreliable, write_init, write_timeout, rank,
  is_writable, priority,
}
use grtcserver.Controller.{
  Comparison, a_is_better, b_is_better, neither, compare_connections, sorts_before,
}

-- The numbers in turn: the rank of the write state, whether it is not receiving, the priority
-- (the greater first) and the round-trip time.
abbrev pub Precedes : ℕ → ℕ → ℕ → ℕ → ℕ → ℕ → ℕ → ℕ → Type 0
Precedes ra qa pa ta rb qb pb tb =
    (ra < rb) ⊎ ((ra ≡ rb) × ((qa < qb) ⊎ ((qa ≡ qb) × ((pb < pa) ⊎ ((pa ≡ pb) × (ta < tb))))))

unfoldable pub quiet : IceConnection → ℕ
quiet c = if c.receiving then 0 else 1

abbrev pub IsBefore : IceConnection → IceConnection → Type 0
IsBefore a b =
    Precedes (rank a.write_state) (quiet a) (priority a) a.rtt (rank b.write_state) (quiet b)
      (priority b) b.rtt

is_writable-rank : (c : IceConnection) → is_writable c ≡ (rank c.write_state == 0)
unfolding is_writable rank
is_writable-rank c = go c.write_state
  where
    go : (s : WriteState) → elim s [ writable ↦ true | _ ↦ false ] ≡ (rank s == 0)
    go writable = refl
    go write_unreliable = refl
    go write_init = refl
    go write_timeout = refl

abbrev outcome : Comparison → ℕ → ℕ → Bool
outcome comparison ta tb = elim comparison [
  | a_is_better ↦ true
  | b_is_better ↦ false
  | neither ↦ ltb ta tb
]

by_numbers :
    (ra rb pa pb ta tb : ℕ) (va vb : Bool)
    → (outcome
          (if (ra == 0) && not (rb == 0)
            then a_is_better
            else if not (ra == 0) && (rb == 0)
            then b_is_better
            else if ltb ra rb
            then a_is_better
            else if ltb rb ra
            then b_is_better
            else if va && not vb
            then a_is_better
            else if not va && vb
            then b_is_better
            else if ltb pb pa
            then a_is_better
            else if ltb pa pb
            then b_is_better
            else neither)
          ta
          tb
        ≡ true)
      ↔ Precedes ra (if va then 0 else 1) pa ta rb (if vb then 0 else 1) pb tb
by_numbers ra rb pa pb ta tb true true = ground arith
by_numbers ra rb pa pb ta tb true false = ground arith
by_numbers ra rb pa pb ta tb false true = ground arith
by_numbers ra rb pa pb ta tb false false = ground arith

pub sorts_before_iff : (a b : IceConnection) → (sorts_before a b ≡ true) ↔ IsBefore a b
unfolding sorts_before compare_connections quiet
sorts_before_iff a b =
    rw (sorts_before, compare_connections, is_writable-rank a, is_writable-rank b)
      (by_numbers (rank a.write_state) (rank b.write_state) (priority a) (priority b) a.rtt b.rtt
        a.receiving b.receiving)

Precedes-trans :
    (ra qa pa ta rb qb pb tb rc qc pc tc : ℕ)
    → Precedes ra qa pa ta rb qb pb tb
    → Precedes rb qb pb tb rc qc pc tc
    → Precedes ra qa pa ta rc qc pc tc
Precedes-trans ra qa pa ta rb qb pb tb rc qc pc tc h k = ground arith

Precedes-split :
    (ra qa pa ta rb qb pb tb rc qc pc tc : ℕ)
    → Precedes ra qa pa ta rc qc pc tc
    → Precedes ra qa pa ta rb qb pb tb ⊎ Precedes rb qb pb tb rc qc pc tc
Precedes-split ra qa pa ta rb qb pb tb rc qc pc tc h = ground arith

Precedes-asym :
    (ra qa pa ta rb qb pb tb : ℕ)
    → Precedes ra qa pa ta rb qb pb tb
    → Precedes rb qb pb tb ra qa pa ta
    → 1 < 1
Precedes-asym ra qa pa ta rb qb pb tb h k = ground arith

asymmetric : (a c : IceConnection) → IsBefore a c → sorts_before c a ≡ false
asymmetric a c z = elim (Bool-cases (sorts_before c a)) [
  | inl e ↦ absurd (
      let n : 1 < 1 =
        Precedes-asym (rank a.write_state) (quiet a) (priority a) a.rtt (rank c.write_state)
          (quiet c) (priority c) c.rtt z ((sorts_before_iff c a).0 e) in
      omega arith)
  | inr e ↦ e
]

pub sorts_before_asym : (a b : IceConnection) → sorts_before a b ≡ true → sorts_before b a ≡ false
sorts_before_asym a b h = asymmetric a b ((sorts_before_iff a b).0 h)

-- The comparison that sort_and_switch_connection sorts by is transitive, and never goes both
-- ways.
pub sorts_before_trans :
    (a b c : IceConnection)
    → sorts_before a b ≡ true
    → sorts_before b c ≡ true
    → (sorts_before a c ≡ true) × (sorts_before c a ≡ false)
sorts_before_trans a b c h k =
    let x : IsBefore a b = (sorts_before_iff a b).0 h in
    let y : IsBefore b c = (sorts_before_iff b c).0 k in
    let z : IsBefore a c =
      Precedes-trans (rank a.write_state) (quiet a) (priority a) a.rtt (rank b.write_state)
        (quiet b) (priority b) b.rtt (rank c.write_state) (quiet c) (priority c) c.rtt x y in
    ((sorts_before_iff a c).1 z, asymmetric a c z)

-- A connection that comes before another comes before any third, or the third before the other:
-- the connections that are as good as each other form classes.
pub sorts_before_split :
    (a b c : IceConnection)
    → sorts_before a c ≡ true
    → (sorts_before a b ≡ true) ⊎ (sorts_before b c ≡ true)
sorts_before_split a b c h =
    elim (Precedes-split (rank a.write_state) (quiet a) (priority a) a.rtt (rank b.write_state)
      (quiet b) (priority b) b.rtt (rank c.write_state) (quiet c) (priority c) c.rtt
      ((sorts_before_iff a c).0 h)) [
        | inl x ↦ inl ((sorts_before_iff a b).1 x)
        | inr y ↦ inr ((sorts_before_iff b c).1 y)
      ]
