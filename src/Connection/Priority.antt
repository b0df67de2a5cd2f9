-- ===== src/Connection/Priority.antt =====
-- The priority of a candidate pair, against the formula of RFC 5245.
use grtcserver.Base.{
  ℕ, ◌+◌, ◌*◌, ◌%◌, ◌^◌, ◌≤◌, ◌<◌, ◌≡◌, ◌∙◌, ltb, leb, if◌then◌else◌, arith, Bool-cases, inl, inr,
}
use grtcserver.Connection.{IceConnection, priority, larger}

-- 2^32 * min(g, d) + 2 * max(g, d) + (g > d ? 1 : 0)
unfoldable pub pair_priority : ℕ → ℕ → ℕ
pair_priority g d = if ltb d g then 2 ^ 32 * d + 2 * g + 1 else 2 ^ 32 * g + 2 * d

unfoldable pub smaller : IceConnection → ℕ
smaller c =
    if ltb c.remote_candidate.priority c.local_priority
    then c.remote_candidate.priority
    else c.local_priority

word :
    (x y b : ℕ)
    → y ≤ x
    → x < 2 ^ 32
    → b ≤ 1
    → (y * 2 ^ 32 + 2 * x % 2 ^ 32 + b) % 2 ^ 64 + (if leb (2 ^ 31) x then 2 ^ 32 else 0)
      ≡ 2 ^ 32 * y + 2 * x + b
word x y b h g k = elim (Bool-cases (leb (2 ^ 31) x)) [
  | inl e ↦ (let l : 2 ^ 31 ≤ x = ground arith in rw e (omega arith))
  | inr e ↦ (let l : x < 2 ^ 31 = ground arith in rw e (omega arith))
]

word_bounds :
    (x y b : ℕ)
    → y ≤ x
    → x < 2 ^ 32
    → b ≤ 1
    → (y * 2 ^ 32 ≤ (y * 2 ^ 32 + 2 * x % 2 ^ 32 + b) % 2 ^ 64)
      × ((y * 2 ^ 32 + 2 * x % 2 ^ 32 + b) % 2 ^ 64 < (y + 1) * 2 ^ 32)
word_bounds x y b h g k = (omega arith, omega arith)

priority_bounds :
    (c : IceConnection)
    → larger c.local_priority c.remote_candidate.priority < 2 ^ 32
    → (smaller c * 2 ^ 32 ≤ priority c) × (priority c < (smaller c + 1) * 2 ^ 32)
unfolding priority larger smaller
priority_bounds c h =
    let g : ℕ = c.local_priority in
    let d : ℕ = c.remote_candidate.priority in
    elim (Bool-cases (ltb d g)) [
      | inl e ↦
          (let l : d < g = ground arith in
            let p : larger g d ≡ g = ground arith in
            rw (priority, smaller, e, p)
              (word_bounds g d 1 (omega arith) (rw p at h) (omega arith)))
      | inr e ↦
          (let l : g ≤ d = ground arith in
            let p : larger g d ≡ d = ground arith in
            rw (priority, smaller, e, p) (word_bounds d g 0 l (rw p at h) (omega arith)))
    ]

-- For two candidates' priorities below 2 ^ 32, the priority of the pair is that of the formula of
-- RFC 5245 if both are below 2 ^ 31; otherwise it is less by 2 ^ 32, since 2 * std::max(g, d) is
-- a uint32_t.
pub priority_lem :
    (c : IceConnection)
    → c.local_priority < 2 ^ 32
    → c.remote_candidate.priority < 2 ^ 32
    → let wraps = leb (2 ^ 31) (larger c.local_priority c.remote_candidate.priority) in
      priority c + (if wraps then 2 ^ 32 else 0)
      ≡ pair_priority c.local_priority c.remote_candidate.priority
unfolding priority larger pair_priority
priority_lem c h k =
    let g : ℕ = c.local_priority in
    let d : ℕ = c.remote_candidate.priority in
    elim (Bool-cases (ltb d g)) [
      | inl e ↦
          (let l : d < g = ground arith in
            let p : larger g d ≡ g = ground arith in
            rw (priority, pair_priority, e, p) (word g d 1 (omega arith) h (omega arith)))
      | inr e ↦
          (let l : g ≤ d = ground arith in
            let p : larger g d ≡ d = ground arith in
            rw (priority, pair_priority, e, p) (word d g 0 l k (omega arith) ∙ omega arith))
    ]

-- Of two pairs whose priorities are below 2 ^ 32, the one whose lower priority is the greater
-- comes first.
pub priority-monotone :
    (a b : IceConnection)
    → smaller a < smaller b
    → larger b.local_priority b.remote_candidate.priority < 2 ^ 32
    → larger a.local_priority a.remote_candidate.priority < 2 ^ 32
    → priority a < priority b
priority-monotone a b h k l =
    let (m, n) = priority_bounds a l in let (p, q) = priority_bounds b k in omega arith
