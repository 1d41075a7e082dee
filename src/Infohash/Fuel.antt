-- ===== src/Infohash/Fuel.antt =====
-- The fuel of the scanner of backend/internal/infohash/infohash.go.
use marauder.Prelude.{
  ℕ, zero, suc, ◌+◌, ◌-◌, ◌*◌, ◌≤◌, ◌<◌, ◌≡◌, refl, ◌≢◌, inl, inr, [], ◌∷◌, arith, if◌then◌else◌,
  Option-cases, length, get_elem?, Text, codes, text_eq,
}
use marauder.Prelude.Decimal.{atoi}
use marauder.Prelude.Int.{ℤ, pos, negsuc, ltb_ℤ, wrap64}
use marauder.Infohash.{
  length_exceeds_data, Scan, ok, fail, panicked, out_of_fuel, ◌>>>◌, index_byte_from, sub_bytes,
  scan_bytes, slice, scan_string, scan_key, scan_value, scan_items, find_info, enough_fuel,
  info_dict_bytes,
}
use marauder.Infohash.Bounds.{scan_string_bounds, scan_key_bounds, scan_value_bounds, get_elem?-lt}

-- Nothing that follows a part that does not run out of fuel runs out of it.
bind_fuel {ℓ κ} :
    {A : Type ℓ} {B : Type κ} (m : Scan A) (f : A → Scan B)
    → m ≢ out_of_fuel
    → ((a : A) → m ≡ ok a → f a ≢ out_of_fuel)
    → (m >>> f) ≢ out_of_fuel
bind_fuel (ok a) f h k = k a refl
bind_fuel (fail e) f h k = λ e. cc
bind_fuel panicked f h k = λ e. cc
bind_fuel out_of_fuel f h k = absurd (h refl)

scan_bytes_fuel : (s : Text) (start : ℕ) (n : ℤ) → scan_bytes s start n ≢ out_of_fuel
unfolding scan_bytes slice
scan_bytes_fuel s start (negsuc n) = λ e. cc
scan_bytes_fuel s start (pos n) = by_stop (wrap64 (pos (start + n)))
  where
    by_stop :
        (stop : ℤ)
        → (if ltb_ℤ (pos (length s)) stop then fail length_exceeds_data else slice s start stop)
          ≢ out_of_fuel
    by_stop (pos stop) = ground arith
    by_stop (negsuc m) = ground arith

scan_string_fuel : (s : Text) (p : ℕ) → scan_string s p ≢ out_of_fuel
unfolding scan_string
scan_string_fuel s p = elim (Option-cases (index_byte_from s p b':')) [
  | inl e ↦ ground (arith, e)
  | inr (colon, e) ↦ elim (Option-cases (atoi (sub_bytes s p colon))) [
    | inl k ↦ ground (arith, e, k)
    | inr (n, k) ↦ ground (arith, e, k, scan_bytes_fuel s (colon + 1) n)
  ]
]

string_fuel : (s : Text) (p : ℕ) → (scan_string s p >>> λ r. ok r.1) ≢ out_of_fuel
string_fuel s p = bind_fuel (scan_string s p) (λ r. ok r.1) (scan_string_fuel s p) (λ r e k. cc)

key_fuel : (s : Text) (p c : ℕ) → scan_key s p c ≢ out_of_fuel
unfolding scan_key
key_fuel s p c = ground (arith, string_fuel s p)

mutual
  unfolding scan_value

  value_fuel :
      (fuel : ℕ) (s : Text) (p depth : ℕ)
      → 2 * (length s - p) < fuel
      → scan_value fuel s p depth ≢ out_of_fuel
  value_fuel zero s p depth h = absurd (omega arith)
  value_fuel (suc fuel) s p depth h = elim (Option-cases (get_elem? s p)) [
    | inl e ↦ ground (arith, e)
    | inr (c, e) ↦
        let lt = get_elem?-lt s p e in
        let inner = items_fuel fuel s (p + 1) depth c (omega (arith, lt)) in
        ground (arith, e, inner, string_fuel s p)
  ]

  items_fuel :
      (fuel : ℕ) (s : Text) (p depth c : ℕ)
      → 2 * (length s - p) + 1 < fuel
      → scan_items fuel s p depth c ≢ out_of_fuel
  items_fuel zero s p depth c h = absurd (omega arith)
  items_fuel (suc fuel) s p depth c h = elim (Option-cases (get_elem? s p)) [
    | inl e ↦ ground (arith, e)
    | inr (b, e) ↦
        let lt = get_elem?-lt s p e in
        let tail : (q : ℕ)
            → p ≤ q
            → (scan_value fuel s q (depth + 1) >>> λ stop. scan_items fuel s stop depth c)
              ≢ out_of_fuel =
          λ q le.
            bind_fuel (scan_value fuel s q (depth + 1)) (λ stop. scan_items fuel s stop depth c)
              (value_fuel fuel s q (depth + 1) (omega arith))
              (λ stop es.
                items_fuel fuel s stop depth c
                  (omega (arith, scan_value_bounds fuel s q (depth + 1) es))) in
        let whole =
          bind_fuel (scan_key s p c)
            (λ q. scan_value fuel s q (depth + 1) >>> λ stop. scan_items fuel s stop depth c)
            (key_fuel s p c) (λ q eq. tail q (scan_key_bounds s p c eq)) in
        ground (arith, e, whole)
  ]

find_info_fuel :
    (fuel : ℕ) (s : Text) (p : ℕ) → length s - p < fuel → find_info fuel s p ≢ out_of_fuel
unfolding find_info
find_info_fuel zero s p h = absurd (omega arith)
find_info_fuel (suc fuel) s p h = elim (Option-cases (get_elem? s p)) [
  | inl e ↦ ground (arith, e)
  | inr (b, e) ↦
      let found = λ (key : Text × ℕ) (stop : ℕ).
        let later = find_info fuel s stop in
        if text_eq key.0 (codes "info") then ok (sub_bytes s key.1 stop) else later in
      let whole =
        bind_fuel (scan_string s p) (λ key. scan_value (enough_fuel s) s key.1 1 >>> found key)
          (scan_string_fuel s p)
          (λ key ek.
            bind_fuel (scan_value (enough_fuel s) s key.1 1) (found key)
              (value_fuel (enough_fuel s) s key.1 1 (omega arith))
              (λ stop es. ground (
                arith,
                find_info_fuel fuel s stop (
                    omega (
                      arith,
                      scan_string_bounds s p ek,
                      scan_value_bounds (enough_fuel s) s key.1 1 es,
                      get_elem?-lt s p e,
                    )),
              ))) in
      ground (arith, e, whole)
]

-- The search for the info dictionary ends: the fuel that the model gives it is never used up.
pub info_dict_bytes_total : (s : Text) → info_dict_bytes s ≢ out_of_fuel
unfolding info_dict_bytes
info_dict_bytes_total [] = ground arith
info_dict_bytes_total (b ∷ bs) =
    ground (arith, find_info_fuel (length (b ∷ bs)) (b ∷ bs) 1 (omega arith))
