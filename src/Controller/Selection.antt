-- ===== src/Controller/Selection.antt =====
-- The connection that sort_and_switch_connection selects is one of the best.
use grtcserver.Base.{
  ℕ, suc, ◌+◌, ◌≤◌, ◌<◌, ◌≡◌, ◌||◌, if◌then◌else◌, ==-refl, ◌≢◌, ◌⊎◌, inl, inr, refl, sym, ◌∙◌,
  List, [], ◌∷◌, Option, none, some, Bool, true, false, ◌==◌, arith, Bool-cases, All, eq_of_some,
  ==_iff,
}
use grtcserver.Connection.{IceConnection}
use grtcserver.Controller.{
  IceController, member, sorts_before, ready_to_send, improves, choose, sort_and_switch_connection,
  k_min_improvement,
}
use grtcserver.Controller.Order.{sorts_before_asym, sorts_before_split}

-- A comparison that std::stable_sort may be given.
pub record IsStrictWeak (less : ℕ → ℕ → Bool) : Type 0 where
  pub asymmetric : (a b : ℕ) → less a b ≡ true → less b a ≡ false
  pub split : (a b c : ℕ) → less a c ≡ true → (less a b ≡ true) ⊎ (less b c ≡ true)

abbrev pub IsSorted : (ℕ → ℕ → Bool) → List ℕ → Type 0
IsSorted less [] = Unit {0}
IsSorted less (x ∷ xs) = All (λ y. less y x ≡ false) xs × IsSorted less xs

-- How often a connection stands in a list.
unfoldable pub count : ℕ → List ℕ → ℕ
count x [] = 0
count x (y ∷ ys) = if x == y then suc (count x ys) else count x ys

-- What is documented of absl::c_stable_sort, as far as the code relies on it.
pub record IsSort (stable_sort : (ℕ → ℕ → Bool) → List ℕ → List ℕ) : Type 0 where
  pub keeps :
      (less : ℕ → ℕ → Bool) (xs : List ℕ) (x : ℕ) → member x (stable_sort less xs) ≡ member x xs
  pub sorts :
      (less : ℕ → ℕ → Bool) (xs : List ℕ) → IsStrictWeak less → IsSorted less (stable_sort less xs)

-- What is documented besides: each element stays as often as it was.
abbrev pub IsPermuting : ((ℕ → ℕ → Bool) → List ℕ → List ℕ) → Type 0
IsPermuting stable_sort =
    (less : ℕ → ℕ → Bool) (xs : List ℕ) (x : ℕ) → count x (stable_sort less xs) ≡ count x xs

-- The comparison that sort_and_switch_connection hands to std::stable_sort is a strict weak
-- order, whatever the connections are: it never goes both ways, and a connection that comes
-- before another comes before any third, or the third before the other.
pub by_sorts_before-IsStrictWeak :
    (heap : ℕ → IceConnection) → IsStrictWeak (λ a b. sorts_before (heap a) (heap b))
by_sorts_before-IsStrictWeak heap = record {
  asymmetric = λ a b h. sorts_before_asym (heap a) (heap b) h;
  split = λ a b c h. sorts_before_split (heap a) (heap b) (heap c) h;
}

All-member : (P : ℕ → Type 0) (xs : List ℕ) (x : ℕ) → All P xs → member x xs ≡ true → P x
unfolding member
All-member P [] x a h = ground arith
All-member P (y ∷ ys) x (p, a) h = elim (Bool-cases (x == y)) [
  | inl e ↦ (let u : x ≡ y = (==_iff x y).0 e in rw u p)
  | inr e ↦ All-member P ys x a (rw e at h)
]

head_first :
    (less : ℕ → ℕ → Bool) (top other : ℕ) (rest : List ℕ)
    → IsStrictWeak less
    → IsSorted less (top ∷ rest)
    → member other (top ∷ rest) ≡ true
    → less other top ≡ false
unfolding member
head_first less top other rest w (a, s) h = elim (Bool-cases (other == top)) [
  | inl e ↦
      (let u : other ≡ top = (==_iff other top).0 e in
        elim (Bool-cases (less top top)) [ inl f ↦ rw u (w.asymmetric top top f) | inr f ↦ rw u f ])
  | inr e ↦ All-member (λ y. less y top ≡ false) rest other a (rw e at h)
]

-- Why one connection is taken instead of what is selected.
abbrev pub IsReason : (ℕ → IceConnection) → Option ℕ → ℕ → Type 0
IsReason heap none top = Unit {0}
IsReason heap (some selected) top =
    (selected ≢ top) × ((heap top).rtt + k_min_improvement ≤ (heap selected).rtt)

improves-IsReason :
    (heap : ℕ → IceConnection) (o : Option ℕ) (top : ℕ)
    → improves heap o top ≡ true
    → IsReason heap o top
unfolding improves
improves-IsReason heap none top h = tt
improves-IsReason heap (some selected) top h = ground arith

pub choose_lem :
    (heap : ℕ → IceConnection) (o : Option ℕ) (xs : List ℕ) (top : ℕ)
    → choose heap o xs ≡ some top
    → (rest : List ℕ) × (xs ≡ top ∷ rest) × (ready_to_send (heap top) ≡ true) × IsReason heap o top
unfolding choose
choose_lem heap o [] top h = ground arith
choose_lem heap o (x ∷ xs) top h = elim (Bool-cases (ready_to_send (heap x))) [
  | inl r ↦ elim (Bool-cases (improves heap o x)) [
    | inl i ↦
        (let e : x ≡ top = eq_of_some (rw (r, i) at h) in
          (xs, rw e refl, rw e at r, rw e at (improves-IsReason heap o x i)))
    | inr i ↦ (let e : none ≡ some top = rw (r, i) at h in cc)
  ]
  | inr r ↦ (let e : none ≡ some top = rw r at h in cc)
]

-- No connection sorts before this one of the connections.
abbrev pub IsBest : (ℕ → IceConnection) → IceController → ℕ → Type 0
IsBest heap k top =
    (member top k.connections ≡ true)
    × All (λ other. sorts_before (heap other) (heap top) ≡ false) k.connections

-- Why the selected connection stays.
abbrev pub IsKept : (ℕ → IceConnection) → Option ℕ → ℕ → Type 0
IsKept heap none top = false ≡ true
IsKept heap (some selected) top =
    (selected ≡ top) ⊎ ((heap selected).rtt < (heap top).rtt + k_min_improvement)

-- What is answered, and why.
abbrev pub IsSwitched : (ℕ → IceConnection) → IceController → Option ℕ → Type 0
IsSwitched heap k (some top) =
    IsBest heap k top × (ready_to_send (heap top) ≡ true) × IsReason heap k.selected_connection top
IsSwitched heap k none =
    (k.connections ≡ [])
    ⊎ ((top : ℕ) × IsBest heap k top
        × ((ready_to_send (heap top) ≡ false) ⊎ IsKept heap k.selected_connection top))

improves-IsKept :
    (heap : ℕ → IceConnection) (o : Option ℕ) (top : ℕ)
    → improves heap o top ≡ false
    → IsKept heap o top
unfolding improves
improves-IsKept heap none top h = absurd (ground arith)
improves-IsKept heap (some selected) top h = ground arith

All-of :
    (P : ℕ → Type 0) (xs ys : List ℕ)
    → ((x : ℕ) → member x ys ≡ true → P x)
    → ((x : ℕ) → member x xs ≡ true → member x ys ≡ true)
    → All P xs
unfolding member
All-of P [] ys h k = tt
All-of P (x ∷ xs) ys h k =
    (h x (k x (rw (==-refl x) refl)), All-of P xs ys h (λ z m. k z (rw m (or-true (z == x)))))
  where
    or-true : (b : Bool) → (b || true) ≡ true
    or-true true = refl
    or-true false = refl

nothing_in : (xs : List ℕ) → ((x : ℕ) → false ≡ member x xs) → xs ≡ []
unfolding member
nothing_in [] h = refl
nothing_in (x ∷ xs) h = absurd (let e : false ≡ true = rw (==-refl x) at (h x) in cc)

choose-IsSwitched :
    (heap : ℕ → IceConnection) (k : IceController) (xs : List ℕ)
    → IsSorted (λ a b. sorts_before (heap a) (heap b)) xs
    → ((x : ℕ) → member x xs ≡ member x k.connections)
    → IsSwitched heap k (choose heap k.selected_connection xs)
unfolding choose member
choose-IsSwitched heap k [] s same = inl (nothing_in k.connections same)
choose-IsSwitched heap k (x ∷ xs) s same =
    let best : IsBest heap k x = (
      sym (same x) ∙ rw (==-refl x) refl,
      All-of (λ other. sorts_before (heap other) (heap x) ≡ false) k.connections (x ∷ xs)
          (λ other m.
            head_first (λ a b. sorts_before (heap a) (heap b)) x other xs
              (by_sorts_before-IsStrictWeak heap) s m)
          (λ other m. same other ∙ m),
    ) in
    elim (Bool-cases (ready_to_send (heap x))) [
      | inl r ↦ elim (Bool-cases (improves heap k.selected_connection x)) [
        | inl i ↦ rw (r, i) (best, r, improves-IsReason heap k.selected_connection x i)
        | inr i ↦ rw (r, i) (inr (x, best, inr (improves-IsKept heap k.selected_connection x i)))
      ]
      | inr r ↦ rw r (inr (x, best, inl r))
    ]

-- For any sort that permutes its elements and sorts by a strict weak order. A connection that
-- sort_and_switch_connection answers is one of the connections, and none of them sorts before it;
-- it is ready to send; and it is another than the selected one, if there is one, with a
-- round-trip time that is smaller by 10 ms at least. Where none is answered, there is no
-- connection, or one before which none sorts is not ready to send, or is itself selected, or is
-- not better than the selected one by that margin. The list of connections keeps each connection
-- as often as it had it.
pub sort_and_switch_lem :
    (stable_sort : (ℕ → ℕ → Bool) → List ℕ → List ℕ) (heap : ℕ → IceConnection) (k : IceController)
    (conn : ℕ)
    → IsSort stable_sort
    → IsPermuting stable_sort
    → IsSwitched heap k (sort_and_switch_connection heap stable_sort k).0
      × (count conn (sort_and_switch_connection heap stable_sort k).1.connections
          ≡ count conn k.connections)
unfolding sort_and_switch_connection
sort_and_switch_lem stable_sort heap k conn laws permutes =
    let less : ℕ → ℕ → Bool = λ a b. sorts_before (heap a) (heap b) in
    (
      choose-IsSwitched heap k (stable_sort less k.connections)
          (laws.sorts less k.connections (by_sorts_before-IsStrictWeak heap))
          (λ x. laws.keeps less k.connections x),
      permutes less k.connections conn,
    )
