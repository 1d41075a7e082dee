-- ===== src/Credentials/Fingerprint.antt =====
-- `fingerprint` of backend/internal/trackercreds/session.go: which bytes are hashed.
use marauder.Prelude.{
  ℕ, zero, suc, ◌+◌, ◌*◌, ◌/◌, ◌%◌, ◌^◌, ◌<◌, ◌≡◌, refl, sym, ap, ◌∙◌, inl, inr, true, false, [],
  ◌∷◌, ◌++◌, arith, ltb, if◌then◌else◌, ltb→lt, Bool-cases, length, Text,
}

-- `binary.AppendUvarint`, as the bytes that it appends; the first argument is the most there can be.
unfoldable pub uvarint : ℕ → ℕ → Text
uvarint zero n = []
uvarint (suc k) n =
    let rest = uvarint k (n / 128) in if ltb n 128 then n ∷ [] else (n % 128 + 128) ∷ rest

-- The number of bytes of a uint64.
abbrev pub max_uvarint_len : ℕ
max_uvarint_len = 10

-- A credential, as `fingerprint` reads it.
pub record Credential : Type 0 where
  pub username : Text
  pub secret : Text
  pub session : Text

unfoldable pub append_part : Text → Text → Text
unfolding uvarint
append_part part rest = uvarint max_uvarint_len (length part) ++ (part ++ rest)

-- What `fingerprint` hashes.
unfoldable pub fingerprint_bytes : Credential → Text
unfolding append_part
fingerprint_bytes c = append_part c.username (append_part c.secret (append_part c.session []))

-- One more than the largest number of so many bytes.
unfoldable pub uvarint_limit : ℕ → ℕ
uvarint_limit zero = 1
uvarint_limit (suc k) = 128 * uvarint_limit k

head_eq : {a b : ℕ} {x y : Text} → a ∷ x ≡ b ∷ y → a ≡ b
head_eq e = cc e

tail_eq : {a b : ℕ} {x y : Text} → a ∷ x ≡ b ∷ y → x ≡ y
tail_eq e = cc e

-- The first byte of a number, and the others.
unfoldable first_byte : ℕ → ℕ
first_byte n = if ltb n 128 then n else n % 128 + 128

unfoldable other_bytes : ℕ → ℕ → Text
unfolding uvarint
other_bytes k n = if ltb n 128 then [] else uvarint k (n / 128)

uvarint_cons : (k n : ℕ) (x : Text) → uvarint (suc k) n ++ x ≡ first_byte n ∷ (other_bytes k n ++ x)
unfolding uvarint first_byte other_bytes
uvarint_cons k n x = elim (Bool-cases (ltb n 128)) [ inl e ↦ rw e refl | inr e ↦ rw e refl ]

short_number : (k n : ℕ) → ltb n 128 ≡ true → (first_byte n ≡ n) × (other_bytes k n ≡ [])
unfolding first_byte other_bytes
short_number k n e = rw e (refl, refl)

long_number :
    (k n : ℕ)
    → ltb n 128 ≡ false
    → (first_byte n ≡ n % 128 + 128) × (other_bytes k n ≡ uvarint k (n / 128))
unfolding first_byte other_bytes
long_number k n e = rw e (refl, refl)

first_byte_short : (a b : ℕ) → first_byte a ≡ first_byte b → ltb a 128 ≡ ltb b 128
unfolding first_byte
first_byte_short a b e = elim (Bool-cases (ltb a 128)) [
  | inl f ↦ elim (Bool-cases (ltb b 128)) [
    | inl g ↦ f ∙ sym g
    | inr g ↦ ground (arith, ltb→lt a 128 f, short_number 0 a f, long_number 0 b g)
  ]
  | inr f ↦ elim (Bool-cases (ltb b 128)) [
    | inl g ↦ ground (arith, ltb→lt b 128 g, short_number 0 b g, long_number 0 a f)
    | inr g ↦ f ∙ sym g
  ]
]

-- A number is read back from its bytes, whatever follows them.
uvarint_prefix :
    (k a b : ℕ) (x y : Text)
    → a < uvarint_limit k
    → b < uvarint_limit k
    → uvarint k a ++ x ≡ uvarint k b ++ y
    → (a ≡ b) × (x ≡ y)
unfolding uvarint_limit uvarint
uvarint_prefix zero a b x y p q e = (omega arith, e)
uvarint_prefix (suc k) a b x y p q e =
    let both : first_byte a ∷ (other_bytes k a ++ x) ≡ first_byte b ∷ (other_bytes k b ++ y) =
      sym (uvarint_cons k a x) ∙ e ∙ uvarint_cons k b y in
    let first = head_eq both in
    let rest = tail_eq both in
    let same = first_byte_short a b first in
    elim (Bool-cases (ltb a 128)) [
      | inl f ↦ small f (sym same ∙ f) first rest
      | inr f ↦
          large f (sym same ∙ f) first rest
            (uvarint_prefix k (a / 128) (b / 128) x y (omega arith) (omega arith))
    ]
  where
    small :
        ltb a 128 ≡ true
        → ltb b 128 ≡ true
        → first_byte a ≡ first_byte b
        → other_bytes k a ++ x ≡ other_bytes k b ++ y
        → (a ≡ b) × (x ≡ y)
    small f g h r =
        let (fa, oa) = short_number k a f in
        let (fb, ob) = short_number k b g in
        (sym fa ∙ h ∙ fb, sym (ap (λ o. o ++ x) oa) ∙ r ∙ ap (λ o. o ++ y) ob)

    large :
        ltb a 128 ≡ false
        → ltb b 128 ≡ false
        → first_byte a ≡ first_byte b
        → other_bytes k a ++ x ≡ other_bytes k b ++ y
        → (uvarint k (a / 128) ++ x ≡ uvarint k (b / 128) ++ y → (a / 128 ≡ b / 128) × (x ≡ y))
        → (a ≡ b) × (x ≡ y)
    large f g h r ih =
        let (fa, oa) = long_number k a f in
        let (fb, ob) = long_number k b g in
        let (c, z) = ih (sym (ap (λ o. o ++ x) oa) ∙ r ∙ ap (λ o. o ++ y) ob) in (omega arith, z)

-- Two texts of one length that start equal texts are equal, and so is what follows.
same_length_prefix : (a b x y : Text) → length a ≡ length b → a ++ x ≡ b ++ y → (a ≡ b) × (x ≡ y)
same_length_prefix [] [] x y l e = (refl, e)
same_length_prefix [] (c ∷ b) x y l e = ground arith
same_length_prefix (c ∷ a) [] x y l e = ground arith
same_length_prefix (c ∷ a) (d ∷ b) x y l e =
    let (p, q) = same_length_prefix a b x y (omega arith) (tail_eq e) in (cc (head_eq e, p), q)

append_part_prefix :
    (a b x y : Text)
    → length a < uvarint_limit max_uvarint_len
    → length b < uvarint_limit max_uvarint_len
    → append_part a x ≡ append_part b y
    → (a ≡ b) × (x ≡ y)
unfolding append_part
append_part_prefix a b x y p q e =
    let (l, r) = uvarint_prefix max_uvarint_len (length a) (length b) (a ++ x) (b ++ y) p q e in
    same_length_prefix a b x y l r

-- No part of the credential is longer than an int64 can say.
pub record Bounded (c : Credential) : Type 0 where
  pub username : length c.username < 2 ^ 63
  pub secret : length c.secret < 2 ^ 63
  pub session : length c.session < 2 ^ 63

in_limit : (n : ℕ) → n < 2 ^ 63 → n < uvarint_limit max_uvarint_len
unfolding uvarint_limit
in_limit n h = omega arith

-- Two credentials whose hashed bytes are the same have the same user name, the same secret and the same
-- session, if no part is longer than an int64 can say: no boundary between parts is lost.
pub fingerprint_bytes_injective :
    (c d : Credential)
    → Bounded c
    → Bounded d
    → fingerprint_bytes c ≡ fingerprint_bytes d
    → (c.username ≡ d.username) × (c.secret ≡ d.secret) × (c.session ≡ d.session)
unfolding fingerprint_bytes
fingerprint_bytes_injective c d bc bd e =
    let (u, r) =
      append_part_prefix c.username d.username _ _ (in_limit _ bc.username) (in_limit _ bd.username)
        e in
    let (s, r') =
      append_part_prefix c.secret d.secret _ _ (in_limit _ bc.secret) (in_limit _ bd.secret) r in
    let (t, r'') =
      append_part_prefix c.session d.session [] [] (in_limit _ bc.session) (in_limit _ bd.session)
        r' in
    (u, s, t)
