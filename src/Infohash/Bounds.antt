-- ===== src/Infohash/Bounds.antt =====
-- How far the scanner of backend/internal/infohash/infohash.go moves.
use marauder.Prelude.{
  ℕ, zero, suc, ◌+◌, ◌≤◌, ◌<◌, ◌≡◌, refl, inl, inr, ◌||◌, some, [], ◌∷◌, arith, ◌==◌, if◌then◌else◌,
  Bool-cases, Option-cases, length, get_elem?, drop, length-drop, Text,
}
use marauder.Prelude.Decimal.{atoi}
use marauder.Prelude.Int.{ℤ, pos, negsuc, ltb_ℤ, wrap64}
use marauder.Infohash.{
  length_exceeds_data, Scan, ok, fail, panicked, out_of_fuel, ◌>>>◌, index_byte, index_byte_from,
  slice, sub_bytes, scan_bytes, scan_string, scan_key, scan_value, scan_items,
}

pub >>>-eq-ok {ℓ κ} :
    {A : Type ℓ} {B : Type κ} (m : Scan A) (f : A → Scan B) {b : B}
    → (m >>> f) ≡ ok b
    → (a : A) × (m ≡ ok a) × (f a ≡ ok b)
>>>-eq-ok (ok a) f h = (a, refl, h)
>>>-eq-ok (fail e) f h = cc
>>>-eq-ok panicked f h = cc
>>>-eq-ok out_of_fuel f h = cc

index_byte_bounds :
    (s : Text) (i b : ℕ) {j : ℕ} → index_byte s i b ≡ some j → (i ≤ j) × (j < i + length s)
unfolding index_byte
index_byte_bounds [] i b h = cc
index_byte_bounds (c ∷ cs) i b {j} h = elim (Bool-cases (c == b)) [
  | inl e ↦ ground (arith, e)
  | inr e ↦ omega (arith, index_byte_bounds cs (suc i) b {j = j} (rw e at h))
]

pub index_byte_from_bounds :
    (s : Text) (from b : ℕ) {j : ℕ}
    → index_byte_from s from b ≡ some j
    → (from ≤ j) × (j < length s)
unfolding index_byte_from
index_byte_from_bounds s from b h =
    let e = index_byte_bounds (drop from s) from b h in omega (arith, e, length-drop from s)

scan_bytes_bounds :
    (s : Text) (start : ℕ) (n : ℤ) {r : Text × ℕ}
    → scan_bytes s start n ≡ ok r
    → (start ≤ r.1) × (r.1 ≤ length s)
unfolding scan_bytes slice
scan_bytes_bounds s start (negsuc n) h = cc
scan_bytes_bounds s start (pos n) h = by_stop (wrap64 (pos (start + n))) h
  where
    by_stop :
        (stop : ℤ) {r : Text × ℕ}
        → (if ltb_ℤ (pos (length s)) stop then fail length_exceeds_data else slice s start stop)
          ≡ ok r
        → (start ≤ r.1) × (r.1 ≤ length s)
    by_stop (pos stop) e = ground arith
    by_stop (negsuc m) e = ground arith

-- A string token has at least its colon, and ends within the data.
pub scan_string_bounds :
    (s : Text) (p : ℕ) {r : Text × ℕ} → scan_string s p ≡ ok r → (p < r.1) × (r.1 ≤ length s)
unfolding scan_string
scan_string_bounds s p {r} h = elim (Option-cases (index_byte_from s p b':')) [
  | inl e ↦ cc (rw (e, scan_string) at h)
  | inr (colon, e) ↦ elim (Option-cases (atoi (sub_bytes s p colon))) [
    | inl k ↦ ground (arith, e, k)
    | inr (n, k) ↦
        let made : scan_bytes s (colon + 1) n ≡ ok r = ground (arith, e, k) in
        omega (arith, scan_bytes_bounds s (colon + 1) n made, index_byte_from_bounds s p b':' e)
  ]
]

-- The successful runs of the scanner, by what it met.
data ValueRun (fuel : ℕ) (s : Text) (p depth next : ℕ) : Type 0 where
  at_integer :
      (stop : ℕ)
      → index_byte_from s (p + 1) b'e' ≡ some stop
      → next ≡ stop + 1
      → ValueRun fuel s p depth next
  at_container :
      (c : ℕ) → scan_items fuel s (p + 1) depth c ≡ ok next → ValueRun fuel s p depth next
  at_string : (r : Text × ℕ) → scan_string s p ≡ ok r → next ≡ r.1 → ValueRun fuel s p depth next

data ItemsRun (fuel : ℕ) (s : Text) (p depth c next : ℕ) : Type 0 where
  at_end : next ≡ p + 1 → p < length s → ItemsRun fuel s p depth c next
  at_item :
      (q stop : ℕ)
      → p ≤ q
      → scan_value fuel s q (depth + 1) ≡ ok stop
      → scan_items fuel s stop depth c ≡ ok next
      → ItemsRun fuel s p depth c next

pub get_elem?-lt : (s : Text) (p : ℕ) {c : ℕ} → get_elem? s p ≡ some c → p < length s
get_elem?-lt [] p h = cc
get_elem?-lt (x ∷ s) zero h = omega arith
get_elem?-lt (x ∷ s) (suc p) h = omega (arith, get_elem?-lt s p h)

value_run :
    (fuel : ℕ) (s : Text) (p depth : ℕ) {next : ℕ}
    → scan_value (suc fuel) s p depth ≡ ok next
    → ValueRun fuel s p depth next
unfolding scan_value
value_run fuel s p depth {next} h = elim (Option-cases (get_elem? s p)) [
  | inl e ↦ ground (arith, e)
  | inr (c, e) ↦ elim (Bool-cases (c == b'i')) [
    | inl i ↦ elim (Option-cases (index_byte_from s (p + 1) b'e')) [
      | inl k ↦ ground (arith, e, i, k)
      | inr (stop, k) ↦ at_integer stop k (ground (arith, e, i, k))
    ]
    | inr i ↦ elim (Bool-cases (c == b'l' || c == b'd')) [
      | inl l ↦ at_container c (ground (arith, e, i, l))
      | inr l ↦
          let e1 : (scan_string s p >>> λ r. ok r.1) ≡ ok next = ground (arith, e, i, l) in
          let (r, er, en) = >>>-eq-ok (scan_string s p) (λ r. ok r.1) e1 in at_string r er (cc)
    ]
  ]
]

pub scan_key_bounds : (s : Text) (p c : ℕ) {q : ℕ} → scan_key s p c ≡ ok q → p ≤ q
unfolding scan_key
scan_key_bounds s p c {q} h = elim (Bool-cases (c == b'd')) [
  | inl d ↦
      let (r, er, en) = >>>-eq-ok (scan_string s p) (λ r. ok r.1) (rw d at h) in
      let same : r.1 ≡ q = cc in omega (arith, scan_string_bounds s p er)
  | inr d ↦ ground (arith, d)
]

items_run :
    (fuel : ℕ) (s : Text) (p depth c : ℕ) {next : ℕ}
    → scan_items (suc fuel) s p depth c ≡ ok next
    → ItemsRun fuel s p depth c next
unfolding scan_value
items_run fuel s p depth c {next} h = elim (Option-cases (get_elem? s p)) [
  | inl e ↦ ground (arith, e)
  | inr (b, e) ↦ elim (Bool-cases (b == b'e')) [
    | inl i ↦ at_end (ground (arith, e, i)) (get_elem?-lt s p e)
    | inr i ↦
        let after =
          λ (q : ℕ). scan_value fuel s q (depth + 1) >>> λ stop. scan_items fuel s stop depth c in
        let (q, eq, e2) = >>>-eq-ok (scan_key s p c) after (ground (arith, e, i)) in
        let (stop, es, e3) =
          >>>-eq-ok (scan_value fuel s q (depth + 1)) (λ stop. scan_items fuel s stop depth c) e2 in
        at_item q stop (scan_key_bounds s p c eq) es e3
  ]
]

mutual
  unfolding scan_value

  value_bounds :
      (fuel : ℕ) (s : Text) (p depth : ℕ) {next : ℕ}
      → scan_value fuel s p depth ≡ ok next
      → (p < next) × (next ≤ length s)
  value_bounds zero s p depth h = cc
  value_bounds (suc fuel) s p depth h = elim (value_run fuel s p depth h) [
    | at_integer stop e n ↦ omega (arith, index_byte_from_bounds s (p + 1) b'e' e)
    | at_container c e ↦ omega (arith, items_bounds fuel s (p + 1) depth c e)
    | at_string r e n ↦ omega (arith, scan_string_bounds s p e)
  ]

  items_bounds :
      (fuel : ℕ) (s : Text) (p depth c : ℕ) {next : ℕ}
      → scan_items fuel s p depth c ≡ ok next
      → (p < next) × (next ≤ length s)
  items_bounds zero s p depth c h = cc
  items_bounds (suc fuel) s p depth c h = elim (items_run fuel s p depth c h) [
    | at_end e lt ↦ omega arith
    | at_item q stop le ev ei ↦
        omega (arith, value_bounds fuel s q (depth + 1) ev, items_bounds fuel s stop depth c ei)
  ]

-- A value that the scanner accepts, at any depth and with any fuel, has at least one byte and ends
-- within the data.
pub scan_value_bounds :
    (fuel : ℕ) (s : Text) (p depth : ℕ) {next : ℕ}
    → scan_value fuel s p depth ≡ ok next
    → (p < next) × (next ≤ length s)
scan_value_bounds = value_bounds
