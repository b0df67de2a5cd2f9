-- ===== src/Controller/Sets.antt =====
-- The two sets of connections, and that they part the connections between them.
use grtcserver.Base.{
  ℕ, ◌<◌, ◌≡◌, inl, inr, refl, ◌∙◌, List, [], ◌∷◌, ◌++◌, false, not, ◌&&◌, ◌||◌, ◌==◌, ltb, arith,
  Bool-cases, All, ==_iff,
}
use grtcserver.Controller.{member, set_insert, set_erase, insert_all}

-- The elements stand in ascending order, each once.
abbrev pub IsAscending : List ℕ → Type 0
IsAscending [] = Unit {0}
IsAscending (x ∷ xs) = All (λ y. x < y) xs × IsAscending xs

below_not_member : (x : ℕ) (xs : List ℕ) → All (λ y. x < y) xs → member x xs ≡ false
unfolding member
below_not_member x [] a = refl
below_not_member x (y ∷ ys) (l, a) = rw (below_not_member x ys a) (ground arith)

pub member-set_insert :
    (x y : ℕ) (ys : List ℕ) → member x (set_insert y ys) ≡ (x == y || member x ys)
unfolding member set_insert
member-set_insert x y [] = refl
member-set_insert x y (z ∷ zs) = ground (arith, member-set_insert x y zs)

All-set_insert :
    (a y : ℕ) (ys : List ℕ) → a < y → All (λ z. a < z) ys → All (λ z. a < z) (set_insert y ys)
unfolding set_insert
All-set_insert a y [] h p = (h, tt)
All-set_insert a y (z ∷ zs) h (q, p) = elim (Bool-cases (y == z)) [
  | inl e ↦ rw e (q, p)
  | inr e ↦ elim (Bool-cases (ltb y z)) [
    | inl f ↦ rw (e, f) (h, (q, p))
    | inr f ↦ rw (e, f) (q, All-set_insert a y zs h p)
  ]
]

All-later : (a b : ℕ) (ys : List ℕ) → a < b → All (λ z. b < z) ys → All (λ z. a < z) ys
All-later a b [] h p = tt
All-later a b (y ∷ ys) h (q, p) = (omega arith, All-later a b ys h p)

pub set_insert-IsAscending : (y : ℕ) (ys : List ℕ) → IsAscending ys → IsAscending (set_insert y ys)
unfolding set_insert
set_insert-IsAscending y [] s = (tt, tt)
set_insert-IsAscending y (z ∷ zs) (a, s) = elim (Bool-cases (y == z)) [
  | inl e ↦ rw e (a, s)
  | inr e ↦ elim (Bool-cases (ltb y z)) [
    | inl f ↦ (let l : y < z = ground arith in rw (e, f) ((l, All-later y z zs l a), (a, s)))
    | inr f ↦
        (let l : z < y = ground arith in
          rw (e, f) (All-set_insert z y zs l a, set_insert-IsAscending y zs s))
  ]
]

All-set_erase : (a y : ℕ) (ys : List ℕ) → All (λ z. a < z) ys → All (λ z. a < z) (set_erase y ys)
unfolding set_erase
All-set_erase a y [] p = tt
All-set_erase a y (z ∷ zs) (q, p) = elim (Bool-cases (y == z)) [
  | inl e ↦ rw e p
  | inr e ↦ rw e (q, All-set_erase a y zs p)
]

pub set_erase-IsAscending : (y : ℕ) (ys : List ℕ) → IsAscending ys → IsAscending (set_erase y ys)
unfolding set_erase
set_erase-IsAscending y [] s = tt
set_erase-IsAscending y (z ∷ zs) (a, s) = elim (Bool-cases (y == z)) [
  | inl e ↦ rw e s
  | inr e ↦ rw e (All-set_erase z y zs a, set_erase-IsAscending y zs s)
]

pub member-set_erase :
    (x y : ℕ) (ys : List ℕ)
    → IsAscending ys
    → member x (set_erase y ys) ≡ (not (x == y) && member x ys)
unfolding member set_erase
member-set_erase x y [] s = ground arith
member-set_erase x y (z ∷ zs) (a, s) = elim (Bool-cases (y == z)) [
  | inl e ↦
      (let u : y ≡ z = (==_iff y z).0 e in
        let n : member z zs ≡ false = below_not_member z zs a in
        elim (Bool-cases (x == z)) [
          | inl f ↦ (let v : x ≡ z = (==_iff x z).0 f in rw (e, u, v, n) (ground arith))
          | inr f ↦ rw (e, u, f) refl
        ])
  | inr e ↦ rw e (ground (arith, member-set_erase x y zs s))
]

pub member-insert_all :
    (x : ℕ) (xs ys : List ℕ) → member x (insert_all xs ys) ≡ (member x xs || member x ys)
unfolding member insert_all
member-insert_all x [] ys = refl
member-insert_all x (z ∷ zs) ys =
    member-insert_all x zs (set_insert z ys) ∙ rw (member-set_insert x z ys) (ground arith)

pub insert_all-IsAscending : (xs ys : List ℕ) → IsAscending ys → IsAscending (insert_all xs ys)
unfolding insert_all
insert_all-IsAscending [] ys s = s
insert_all-IsAscending (x ∷ xs) ys s =
    insert_all-IsAscending xs (set_insert x ys) (set_insert-IsAscending x ys s)

pub member-append : (x y : ℕ) (xs : List ℕ) → member x (xs ++ (y ∷ [])) ≡ (x == y || member x xs)
unfolding member
member-append x y [] = refl
member-append x y (z ∷ zs) = ground (arith, member-append x y zs)
