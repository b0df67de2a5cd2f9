-- ===== src/LockFreeQueue/Layout.antt =====
-- The list of nodes in memory.
use grtcserver.Base.{ℕ, ◌≡◌, ◌==◌, false, List, [], ◌∷◌, ◌++◌, some}
use grtcserver.LockFreeQueue.{Memory, Producer, linked, LockFreeQueue}

pub record Cell {ℓ} (A : Type ℓ) : Type ℓ where
  pub address : ℕ
  pub value : A

module _ {ℓ} {A : Type ℓ} where
  -- The address where a list of cells begins, with that of what follows it.
  abbrev pub begin : List (Cell A) → ℕ → ℕ
  begin [] end = end
  begin (c ∷ cells) end = c.address

  abbrev pub last_address : Cell A → List (Cell A) → ℕ
  last_address c [] = c.address
  last_address c (d ∷ cells) = last_address d cells

  -- Each cell lives and points to the next, the last one to the end.
  abbrev pub Linked : Memory A → List (Cell A) → ℕ → Type ℓ
  Linked memory [] end = Unit {ℓ}
  Linked memory (c ∷ cells) end =
      (memory c.address ≡ some (record { value = c.value; next = begin cells end }))
      × Linked memory cells end

  abbrev pub Apart : ℕ → List (Cell A) → Type 0
  Apart address [] = Unit {0}
  Apart address (c ∷ cells) = ((c.address == address) ≡ false) × Apart address cells

  abbrev pub Distinct : List (Cell A) → Type 0
  Distinct [] = Unit {0}
  Distinct (c ∷ cells) = Apart c.address cells × Distinct cells

  -- What `last->next` points to.
  abbrev pub end_of : Producer A → ℕ
  end_of (linked address t) = address
  end_of _ = 0

-- The nodes that were consumed, the one at the divider, and those that wait.
pub record IsLaidOut {ℓ} {A : Type ℓ} (q : LockFreeQueue A) (end : ℕ) (gone : List (Cell A))
    (here : Cell A) (rest : List (Cell A)) : Type ℓ where
  pub chained : Linked q.nodes (gone ++ here ∷ rest) end
  pub distinct : Distinct (gone ++ here ∷ rest)
  pub at_first : q.first ≡ begin gone here.address
  pub at_divider : q.divider ≡ here.address
  pub at_last : q.last ≡ last_address here rest
