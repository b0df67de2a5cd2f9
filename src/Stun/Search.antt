-- ===== src/Stun/Search.antt =====
-- The loop of _validate_message_integrity_of_type that looks for the attribute.
use grtcserver.Base.{
  ℕ, zero, suc, ◌+◌, ◌<◌, ◌≤◌, ◌≡◌, ◌≢◌, refl, ◌∙◌, ap, List, [], ◌∷◌, ◌++◌, some, arith, length,
  drop, drop-drop, drop-append, length-append, append_assoc, append_regroup, All, eq_of_some,
}
use grtcserver.Wire.{Wire, IsWire}
use grtcserver.Stun.{StunAttribute, padded, stun_attr_message_integrity}
use grtcserver.Stun.Message.{write_attributes, attribute_bytes}
use grtcserver.Stun.Layout.{IsSound}
use grtcserver.Stun.RoundTrip.{written_attributes}
use grtcserver.Stun.Integrity.{find_integrity}
use grtcserver.Stun.Fields.{attribute_type, attribute_length, length-attribute_bytes}

-- No attribute of the type stands in the list.
abbrev pub Lacks : ℕ → List StunAttribute → Type 0
Lacks type = All (λ a. a.type ≢ type)

module _ (w : Wire) (laws : IsWire w) where
  -- One round at an attribute of another type.
  search_past :
      (fuel pos : ℕ) (input rest : List ℕ) (type n : ℕ)
      → drop pos input ≡ rest
      → 4 ≤ length rest
      → length input ≡ pos + length rest
      → w.get_be16 rest ≡ type
      → type ≢ stun_attr_message_integrity
      → w.get_be16 (drop 2 rest) ≡ n
      → find_integrity w (suc fuel) input pos ≡ find_integrity w fuel input (pos + (4 + padded n))
  unfolding find_integrity
  search_past fuel pos input rest type n at long len t ne l =
      rw (drop-drop pos 2 input, at, t, l) (ground arith)

  search_here :
      (fuel pos : ℕ) (input rest : List ℕ)
      → drop pos input ≡ rest
      → 4 ≤ length rest
      → length input ≡ pos + length rest
      → w.get_be16 rest ≡ stun_attr_message_integrity
      → find_integrity w (suc fuel) input pos ≡ some pos
  unfolding find_integrity
  search_here fuel pos input rest at long len t = rw (at, t) (ground arith)

  -- Over written attributes of other types the search comes to what follows them.
  pub find_integrity-write :
      (xs : List StunAttribute) (fuel : ℕ) (pre vs tail : List ℕ)
      → All IsSound xs
      → Lacks stun_attr_message_integrity xs
      → write_attributes w xs ≡ some vs
      → length vs < fuel
      → 4 ≤ length tail
      → w.get_be16 tail ≡ stun_attr_message_integrity
      → find_integrity w fuel (pre ++ (vs ++ tail)) (length pre) ≡ some (length pre + length vs)
  find_integrity-write xs zero pre vs tail s n e h long t = absurd (omega arith)
  find_integrity-write [] (suc fuel) pre vs tail s n e h long t =
      unfold write_attributes in
      let p : [] ≡ vs = eq_of_some e in
      rw (← p) (
        search_here fuel (length pre) (pre ++ tail) tail (drop-append _ pre tail refl) long
          (length-append pre tail) t
        ∙ ap some (omega arith))
  find_integrity-write (a ∷ xs) (suc fuel) pre vs tail (s, ss) (n, ns) e h long t =
      let (value, us, p, size, q, whole, len) = written_attributes w laws a xs vs s e in
      let first = attribute_bytes w a value in
      let rest = first ++ (us ++ tail) in
      let fl = length-attribute_bytes w laws a value in
      let rl = length-append first (us ++ tail) in
      let split : pre ++ (vs ++ tail) ≡ (pre ++ first) ++ (us ++ tail) =
        rw (← whole) (append_regroup pre first us tail) in
      let pos : length pre + (4 + padded a.length) ≡ length (pre ++ first) =
        omega (arith, length-append pre first) in
      rw split (
        search_past fuel (length pre) ((pre ++ first) ++ (us ++ tail)) rest a.type a.length
          (rw append_assoc (drop-append _ pre rest refl)) (omega arith)
          (rw append_assoc (length-append pre rest))
          (attribute_type w laws a value (us ++ tail) s.type_fits) n
          (attribute_length w laws a value (us ++ tail) (omega (arith, s.length_fits)))
        ∙ ap (find_integrity w fuel ((pre ++ first) ++ (us ++ tail))) pos
        ∙ find_integrity-write xs fuel (pre ++ first) us tail ss ns q (omega arith) long t
        ∙ ap some (omega (arith, pos, len)))
