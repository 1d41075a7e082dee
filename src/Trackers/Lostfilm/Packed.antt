-- ===== src/Trackers/Lostfilm/Packed.antt =====
-- The packed form of an episode.
use marauder.Prelude.{
  ℕ, zero, suc, ◌+◌, ◌-◌, ◌<◌, ◌≡◌, refl, sym, ap, ◌∙◌, Bool, true, false, ◌&&◌, some, List, [],
  ◌∷◌, ◌++◌, arith, ltb, ◌==◌, ◌>>=◌, ◌>>◌, length, take, drop, length-append, drop-append, Text,
  text_eq,
}
use marauder.Prelude.Decimal.{itoa}
use mathlib.Core.List.{append_assoc}
use marauder.Trackers.Lostfilm.{EpisodeRef, padded, packed_id, digits_value, read_packed}

-- Every number of at most three digits is checked.
is_padded : ℕ → Bool
unfolding padded digits_value
is_padded n = (length (padded 3 n) == 3) && (digits_value (padded 3 n) == n)

all_below : ℕ → Bool
unfolding is_padded
all_below zero = true
all_below (suc n) = is_padded n && all_below n

all_below_sound : (n x : ℕ) → all_below n ≡ true → x < n → is_padded x ≡ true
unfolding all_below
all_below_sound zero x h l = absurd (omega (arith, l))
all_below_sound (suc n) x h l = ground (arith, all_below_sound n x)

all_padded : all_below 1000 ≡ true
unfolding all_below itoa marauder.Prelude.Decimal.dec_value
all_padded = refl

padded_fits : (n : ℕ) → n < 1000 → (length (padded 3 n) ≡ 3) × (digits_value (padded 3 n) ≡ n)
unfolding is_padded
padded_fits n h = let k = all_below_sound 1000 n all_padded h in ground (arith, k)

take-append {ℓ} : {A : Type ℓ} (xs ys : List A) → take (length xs) (xs ++ ys) ≡ xs
take-append [] [] = refl
take-append [] (y ∷ ys) = refl
take-append (x ∷ xs) ys = ap (λ l. x ∷ l) (take-append xs ys)

named_show : (show : Text) → 0 < length show → text_eq show [] ≡ false
unfolding text_eq
named_show [] h = absurd (omega (arith, h))
named_show (c ∷ s) h = refl

-- The packed text, cut at its end: the show, and the two numbers of three digits.
packed_length :
    (show a b : Text) → length a ≡ 3 → length b ≡ 3 → length (show ++ (a ++ b)) ≡ length show + 6
packed_length show a b p q = omega (arith, length-append show (a ++ b), length-append a b)

packed_number :
    (show a b : Text)
    → length a ≡ 3
    → length b ≡ 3
    → drop (length (show ++ (a ++ b)) - 3) (show ++ (a ++ b)) ≡ b
packed_number show a b p q =
    let n : length (show ++ (a ++ b)) - 3 ≡ length (show ++ a) =
      omega (arith, packed_length show a b p q, length-append show a) in
    rw n (rw (← append_assoc show a b) (drop-append (show ++ a) b))

packed_show :
    (show a b : Text)
    → length a ≡ 3
    → length b ≡ 3
    → take (length (show ++ (a ++ b)) - 6) (show ++ (a ++ b)) ≡ show
packed_show show a b p q =
    let n : length (show ++ (a ++ b)) - 6 ≡ length show =
      omega (arith, packed_length show a b p q) in
    rw n (take-append show (a ++ b))

packed_season :
    (show a b : Text)
    → length a ≡ 3
    → length b ≡ 3
    → take 3 (drop (length (show ++ (a ++ b)) - 6) (show ++ (a ++ b))) ≡ a
packed_season show a b p q =
    let n : length (show ++ (a ++ b)) - 6 ≡ length show =
      omega (arith, packed_length show a b p q) in
    rw n (rw (drop-append show (a ++ b)) (ap (λ k. take k (a ++ b)) (sym p) ∙ take-append a b))

-- The packed id of an episode is read back as that episode where the show's id is not empty and the season
-- and the number are from 1 to 999, which are the numbers of three digits.
pub read_packed-packed_id :
    (e : EpisodeRef)
    → 0 < length e.show_id
    → 0 < e.season
    → e.season < 1000
    → 0 < e.episode
    → e.episode < 1000
    → read_packed (packed_id e)
      ≡ some (e.show_id ++ b'-' ∷ (itoa e.season ++ b'-' ∷ itoa e.episode), e)
unfolding read_packed packed_id
read_packed-packed_id e named s0 s h0 h =
    let a = padded_fits e.season s in
    let b = padded_fits e.episode h in
    let n = packed_length e.show_id (padded 3 e.season) (padded 3 e.episode) a.0 b.0 in
    let show = packed_show e.show_id (padded 3 e.season) (padded 3 e.episode) a.0 b.0 in
    let season = packed_season e.show_id (padded 3 e.season) (padded 3 e.episode) a.0 b.0 in
    let number = packed_number e.show_id (padded 3 e.season) (padded 3 e.episode) a.0 b.0 in
    let long : ltb (length (e.show_id ++ (padded 3 e.season ++ padded 3 e.episode))) 7 ≡ false =
      ground arith in
    let some_season : (e.season == 0) ≡ false = ground arith in
    let some_number : (e.episode == 0) ≡ false = ground arith in
    simp
      (show, season, number, long, a.1, b.1, some_season, some_number, named_show e.show_id named)
      refl
