-- ===== src/Torrentmeta/Fuel.antt =====
-- The fuel of the decoder of backend/internal/torrentmeta/bencode.go.
use marauder.Prelude.{
  ℕ, zero, suc, ◌+◌, ◌-◌, ◌*◌, ◌<◌, refl, ◌≢◌, inl, inr, Bool, true, false, Option, none, some,
  arith, ltb, leb, ◌==◌, if◌then◌else◌, Option-cases, length, get_elem?, Text, codes,
}
use marauder.Prelude.Decimal.{is_digit, atoi}
use marauder.Prelude.Int.{ℤ, pos, negsuc}
use marauder.Bencode.{Bencode, int, str, list, dict, Items, nil, cons, Fields, field}
use marauder.Infohash.{index_byte_from, sub_bytes, enough_fuel}
use marauder.Infohash.Bounds.{get_elem?-lt, index_byte_from_bounds}
use marauder.Torrentmeta.Decode.{
  lookup, as_dict, as_list, read_entry, read_entries, info_of, files_of_info, single_file, files,
  root_name,
}
use marauder.Torrentmeta.Decoder.{
  Decoded, done, bad, ran_out, ◌>>>◌, Cursor, take_bytes, decode_str, decode_int, decode_value,
  decode_list, decode_dict, decode, max_depth, max_values, max_list_len,
}

-- A step that does not run out, and that leaves its cursor behind `p` where it succeeds.
abbrev Advances {ℓ} : {A : Type ℓ} → (A → ℕ) → ℕ → Decoded A → Type 0
Advances at p (done a) = p < at a
Advances at p (bad e) = Unit {0}
Advances at p ran_out = ⊥

bind_Advances {ℓ κ} :
    {A : Type ℓ} {B : Type κ} (f : A → ℕ) (g : B → ℕ) (p q : ℕ) (m : Decoded A) (k : A → Decoded B)
    → Advances f p m
    → ((a : A) → p < f a → Advances g q (k a))
    → Advances g q (m >>> k)
bind_Advances f g p q (done a) k h next = next a h
bind_Advances f g p q (bad e) k h next = tt
bind_Advances f g p q ran_out k h next = absurd h

if_Advances {ℓ} :
    {A : Type ℓ} (f : A → ℕ) (p : ℕ) (b : Bool) (x y : Decoded A)
    → Advances f p x
    → Advances f p y
    → Advances f p (if b then x else y)
if_Advances f p true x y hx hy = hx
if_Advances f p false x y hx hy = hy

take_bytes-Advances :
    (s : Text) (p start : ℕ) (n : ℤ) → p < start → Advances (λ r. r.1) p (take_bytes s start n)
unfolding take_bytes
take_bytes-Advances s p start (negsuc n) h = tt
take_bytes-Advances s p start (pos n) h =
    if_Advances (λ r. r.1) p (ltb (length s - start) n) _ _ tt (omega (arith, h))

decode_str-Advances : (s : Text) (p : ℕ) → Advances (λ r. r.1) p (decode_str s p)
unfolding decode_str
decode_str-Advances s p = elim (Option-cases (index_byte_from s p b':')) [
  | inl e ↦ rw (e, decode_str) tt
  | inr (colon, e) ↦ elim (Option-cases (atoi (sub_bytes s p colon))) [
    | inl k ↦ rw (e, k, decode_str) tt
    | inr (n, k) ↦
        rw (e, k, decode_str)
          (take_bytes-Advances s p (colon + 1) n (omega (arith, index_byte_from_bounds s p b':' e)))
  ]
]

decode_int-Advances : (s : Text) (p : ℕ) → Advances (λ r. r.1) p (decode_int s p)
unfolding decode_int
decode_int-Advances s p = elim (Option-cases (index_byte_from s p b'e')) [
  | inl e ↦ rw (e, decode_int) tt
  | inr (stop, e) ↦ elim (Option-cases (atoi (sub_bytes s (p + 1) stop))) [
    | inl k ↦ rw (e, k, decode_int) tt
    | inr (n, k) ↦ rw (e, k, decode_int) (omega (arith, index_byte_from_bounds s p b'e' e))
  ]
]

-- The cursor of what a step returns.
abbrev cursor_at {ℓ} : {A : Type ℓ} → A × Cursor → ℕ
cursor_at r = r.1.at

mutual
  unfolding decode_value

  value_Advances :
      (fuel : ℕ) (s : Text) (depth : ℕ) (d : Cursor)
      → 2 * (length s - d.at) < fuel
      → Advances cursor_at d.at (decode_value fuel s depth d)
  value_Advances zero s depth d h = absurd (omega arith)
  value_Advances (suc fuel) s depth d h =
      let inner : Cursor = record { at = d.at + 1; values = suc d.values } in
      let items = λ (l : d.at < length s).
        bind_Advances cursor_at cursor_at (d.at + 1) d.at (decode_list fuel s depth 0 inner)
          (λ r. done (list r.0, r.1)) (list_Advances fuel s depth 0 inner (omega (arith, l, h)))
          (λ r q. omega (arith, q)) in
      let fields = λ (l : d.at < length s).
        bind_Advances cursor_at cursor_at (d.at + 1) d.at (decode_dict fuel s depth inner)
          (λ r. done (dict r.0, r.1)) (dict_Advances fuel s depth inner (omega (arith, l, h)))
          (λ r q. omega (arith, q)) in
      let int_token =
        bind_Advances (λ r. r.1) cursor_at d.at d.at (decode_int s d.at)
          (λ r. done (int r.0, record { at = r.1; values = suc d.values }))
          (decode_int-Advances s d.at) (λ r q. q) in
      let str_token =
        bind_Advances (λ r. r.1) cursor_at d.at d.at (decode_str s d.at)
          (λ r. done (str r.0, record { at = r.1; values = suc d.values }))
          (decode_str-Advances s d.at) (λ r q. q) in
      if_Advances cursor_at d.at (ltb max_depth depth) _ _ tt (
        if_Advances cursor_at d.at (ltb max_values (suc d.values)) _ _ tt
          (elim (Option-cases (get_elem? s d.at)) [
            | inl e ↦ rw e tt
            | inr (c, e) ↦
                let l = get_elem?-lt s d.at e in
                rw e (
                  if_Advances cursor_at d.at (c == b'i') _ _ int_token (
                    if_Advances cursor_at d.at (c == b'l') _ _ (items l) (
                      if_Advances cursor_at d.at (c == b'd') _ _ (fields l)
                        (if_Advances cursor_at d.at (is_digit c) _ _ str_token tt))))
          ]))

  list_Advances :
      (fuel : ℕ) (s : Text) (depth n : ℕ) (d : Cursor)
      → 2 * (length s - d.at) + 1 < fuel
      → Advances cursor_at d.at (decode_list fuel s depth n d)
  list_Advances zero s depth n d h = absurd (omega arith)
  list_Advances (suc fuel) s depth n d h = elim (Option-cases (get_elem? s d.at)) [
    | inl e ↦ rw (e, decode_list) tt
    | inr (c, e) ↦
        let l = get_elem?-lt s d.at e in
        let rest =
          bind_Advances cursor_at cursor_at d.at d.at (decode_value fuel s (depth + 1) d)
            (λ v. decode_list fuel s depth (suc n) v.1 >>> λ r. done (cons v.0 r.0, r.1))
            (value_Advances fuel s (depth + 1) d (omega (arith, h)))
            (λ v q.
              bind_Advances cursor_at cursor_at v.1.at d.at (decode_list fuel s depth (suc n) v.1)
                (λ r. done (cons v.0 r.0, r.1))
                (list_Advances fuel s depth (suc n) v.1 (omega (arith, q, l, h)))
                (λ r t. omega (arith, q, t))) in
        rw (e, decode_list)
          (if_Advances cursor_at d.at (c == b'e') _ _ (omega arith)
            (if_Advances cursor_at d.at (leb max_list_len n) _ _ tt rest))
  ]

  dict_Advances :
      (fuel : ℕ) (s : Text) (depth : ℕ) (d : Cursor)
      → 2 * (length s - d.at) + 1 < fuel
      → Advances cursor_at d.at (decode_dict fuel s depth d)
  dict_Advances zero s depth d h = absurd (omega arith)
  dict_Advances (suc fuel) s depth d h = elim (Option-cases (get_elem? s d.at)) [
    | inl e ↦ rw (e, decode_dict) tt
    | inr (c, e) ↦
        let l = get_elem?-lt s d.at e in
        let rest =
          bind_Advances (λ k. k.1) cursor_at d.at d.at (decode_str s d.at)
            (λ k. decode_value fuel s (depth + 1) (record d { at = k.1 }) >>> λ v.
              decode_dict fuel s depth v.1 >>> λ r. done (field k.0 v.0 r.0, r.1))
            (decode_str-Advances s d.at)
            (λ k p.
              bind_Advances cursor_at cursor_at k.1 d.at
                (decode_value fuel s (depth + 1) (record d { at = k.1 }))
                (λ v. decode_dict fuel s depth v.1 >>> λ r. done (field k.0 v.0 r.0, r.1))
                (value_Advances fuel s (depth + 1) (record d { at = k.1 }) (omega (arith, h, p)))
                (λ v q.
                  bind_Advances cursor_at cursor_at v.1.at d.at (decode_dict fuel s depth v.1)
                    (λ r. done (field k.0 v.0 r.0, r.1))
                    (dict_Advances fuel s depth v.1 (omega (arith, p, q, l, h)))
                    (λ r t. omega (arith, p, q, t)))) in
        rw (e, decode_dict) (if_Advances cursor_at d.at (c == b'e') _ _ (omega arith) rest)
  ]

bind_total {ℓ κ} :
    {A : Type ℓ} {B : Type κ} (m : Decoded A) (k : A → Decoded B)
    → m ≢ ran_out
    → ((a : A) → k a ≢ ran_out)
    → (m >>> k) ≢ ran_out
bind_total (done a) k h next = next a
bind_total (bad e) k h next = λ q. cc
bind_total ran_out k h next = absurd (h refl)

Advances-total {ℓ} : {A : Type ℓ} (f : A → ℕ) (p : ℕ) (m : Decoded A) → Advances f p m → m ≢ ran_out
Advances-total f p (done a) h = λ q. cc
Advances-total f p (bad e) h = λ q. cc
Advances-total f p ran_out h = absurd h

decode_total : (s : Text) → decode s ≢ ran_out
unfolding decode
decode_total s =
    bind_total (decode_value (enough_fuel s) s 0 (record { at = 0; values = 0 })) (λ r. done r.0)
      (Advances-total cursor_at 0 _
        (value_Advances (enough_fuel s) s 0 (record { at = 0; values = 0 }) (omega arith)))
      (λ r q. cc)

read_entry_total : (o : Option Fields) → read_entry o ≢ ran_out
unfolding read_entry
read_entry_total none = ground arith
read_entry_total (some entry) = ground arith

read_entries_total : (raws : Items) → read_entries raws ≢ ran_out
unfolding read_entries
read_entries_total nil = λ q. cc
read_entries_total (cons raw raws) =
    bind_total (read_entry (as_dict (some raw))) _ (read_entry_total (as_dict (some raw)))
      (λ f. bind_total (read_entries raws) _ (read_entries_total raws) (λ fs q. cc))

info_of_total : (root : Bencode) → info_of root ≢ ran_out
unfolding info_of
info_of_total root = ground arith

files_of_info_total : (info : Fields) → files_of_info info ≢ ran_out
unfolding files_of_info single_file
files_of_info_total info = elim (Option-cases (as_list (lookup (codes "files") info))) [
  | inl e ↦ ground (arith, e)
  | inr (raws, e) ↦ ground (arith, e, read_entries_total raws)
]

-- `Files` and `RootName` end on every input, with a result or an error of the code: the fuel that the model
-- gives to the decoder is never used up.
pub files_total : (s : Text) → (files s ≢ ran_out) × (root_name s ≢ ran_out)
unfolding files root_name
files_total s = (
  bind_total (decode s) _ (decode_total s)
      (λ root. bind_total (info_of root) _ (info_of_total root) (λ info. files_of_info_total info)),
  bind_total (decode s) _ (decode_total s)
      (λ root. bind_total (info_of root) _ (info_of_total root) (λ info. ground arith)),
)
