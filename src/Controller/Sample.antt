-- ===== src/Controller/Sample.antt =====
-- A sort that is as absl::c_stable_sort is documented: insertion from the right.
use grtcserver.Base.{
  ℕ, ◌≡◌, refl, ◌∙◌, List, [], ◌∷◌, Bool, false, ◌||◌, ◌==◌, if◌then◌else◌, arith, Bool-cases, inl,
  inr, All,
}
use grtcserver.Controller.{member}
use grtcserver.Controller.Selection.{IsStrictWeak, IsSorted, IsSort, IsPermuting, count}

unfoldable pub insert_before : (ℕ → ℕ → Bool) → ℕ → List ℕ → List ℕ
insert_before less x [] = x ∷ []
insert_before less x (y ∷ ys) = if less y x then y ∷ insert_before less x ys else x ∷ y ∷ ys

unfoldable pub sample_sort : (ℕ → ℕ → Bool) → List ℕ → List ℕ
unfolding insert_before
sample_sort less [] = []
sample_sort less (x ∷ xs) = insert_before less x (sample_sort less xs)

member-insert_before :
    (less : ℕ → ℕ → Bool) (x y : ℕ) (ys : List ℕ)
    → member x (insert_before less y ys) ≡ (x == y || member x ys)
unfolding member insert_before
member-insert_before less x y [] = refl
member-insert_before less x y (z ∷ zs) = ground (arith, member-insert_before less x y zs)

count-insert_before :
    (less : ℕ → ℕ → Bool) (x y : ℕ) (ys : List ℕ)
    → count x (insert_before less y ys) ≡ count x (y ∷ ys)
unfolding count insert_before
count-insert_before less x y [] = refl
count-insert_before less x y (z ∷ zs) = ground (arith, count-insert_before less x y zs)

All-insert_before :
    (less : ℕ → ℕ → Bool) (P : ℕ → Type 0) (x : ℕ) (ys : List ℕ)
    → P x
    → All P ys
    → All P (insert_before less x ys)
unfolding insert_before
All-insert_before less P x [] p a = (p, tt)
All-insert_before less P x (y ∷ ys) p (q, a) = elim (Bool-cases (less y x)) [
  | inl e ↦ rw e (q, All-insert_before less P x ys p a)
  | inr e ↦ rw e (p, (q, a))
]

All-before :
    (less : ℕ → ℕ → Bool) (x y : ℕ) (ys : List ℕ)
    → IsStrictWeak less
    → less y x ≡ false
    → All (λ z. less z y ≡ false) ys
    → All (λ z. less z x ≡ false) ys
All-before less x y [] w h a = tt
All-before less x y (z ∷ zs) w h (p, a) = (
  elim (Bool-cases (less z x)) [
    | inl e ↦ (elim (w.split z y x e) [
      | inl f ↦ absurd (ground arith)
      | inr f ↦ absurd (ground arith)
    ])
    | inr e ↦ e
  ],
  All-before less x y zs w h a,
)

insert_before-IsSorted :
    (less : ℕ → ℕ → Bool) (x : ℕ) (ys : List ℕ)
    → IsStrictWeak less
    → IsSorted less ys
    → IsSorted less (insert_before less x ys)
unfolding insert_before
insert_before-IsSorted less x [] w s = (tt, tt)
insert_before-IsSorted less x (y ∷ ys) w (a, s) = elim (Bool-cases (less y x)) [
  | inl e ↦ rw e (
    All-insert_before less (λ z. less z y ≡ false) x ys (w.asymmetric y x e) a,
    insert_before-IsSorted less x ys w s,
  )
  | inr e ↦ rw e ((e, All-before less x y ys w e a), (a, s))
]

sample_sort-IsSorted :
    (less : ℕ → ℕ → Bool) (xs : List ℕ) → IsStrictWeak less → IsSorted less (sample_sort less xs)
unfolding sample_sort
sample_sort-IsSorted less [] w = tt
sample_sort-IsSorted less (x ∷ xs) w =
    insert_before-IsSorted less x (sample_sort less xs) w (sample_sort-IsSorted less xs w)

count-sample_sort :
    (less : ℕ → ℕ → Bool) (xs : List ℕ) (x : ℕ) → count x (sample_sort less xs) ≡ count x xs
unfolding sample_sort count
count-sample_sort less [] x = refl
count-sample_sort less (y ∷ ys) x =
    count-insert_before less x y (sample_sort less ys) ∙ rw (count-sample_sort less ys x) refl

pub sample_sort-IsPermuting : IsPermuting sample_sort
sample_sort-IsPermuting = count-sample_sort

member-sample_sort :
    (less : ℕ → ℕ → Bool) (xs : List ℕ) (x : ℕ) → member x (sample_sort less xs) ≡ member x xs
unfolding sample_sort member
member-sample_sort less [] x = refl
member-sample_sort less (y ∷ ys) x =
    member-insert_before less x y (sample_sort less ys) ∙ rw (member-sample_sort less ys x) refl

pub sample_sort-IsSort : IsSort sample_sort
sample_sort-IsSort = record { keeps = member-sample_sort; sorts = sample_sort-IsSorted }
