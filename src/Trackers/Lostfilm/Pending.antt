-- ===== src/Trackers/Lostfilm/Pending.antt =====
-- What a check of a series finds pending.
use marauder.Prelude.{
  ℕ, ◌≡◌, refl, sym, ap, ◌∙◌, subst, ◌≢◌, ◌⊎◌, inl, inr, true, false, none, some, List, [], ◌∷◌,
  ◌++◌, arith, ◌==◌, Bool-cases, length, get_or, take, drop, drop-nil, Text, codes,
}
use marauder.Prelude.Decimal.{parse_uint-itoa, itoa, AllDigits, itoa-AllDigits}
use marauder.Extra.{Extras, get_int, get_strings}
use marauder.Scheduler.Check.{Found}
use marauder.Trackers.Lostfilm.{collect_pending, check_hash, Page, parse_episodes, check_series}
use marauder.Trackers.Lostfilm.Collect.{Distinct, pending-take}

-- The two ways in which `Check` ends on a page that it has fetched.
abbrev magnet_found : Page → Found
magnet_found page = record {
  hash = codes "magnet-fallback";
  display_name = page.title;
  pending = [];
  human = [];
}

abbrev counted_found : Page → Extras → Found
counted_found page extra =
    let episodes = parse_episodes page in
    let downloaded = get_strings extra (codes "downloaded_episodes") in
    let r =
      collect_pending (get_int extra (codes "start_season")) (get_int extra (codes "start_episode"))
        downloaded episodes in
    record {
      hash = check_hash (length episodes) (length downloaded) (length r.0);
      display_name = page.title;
      pending = r.0;
      human = r.1;
    }

check_series-cases :
    (page : Page) (extra : Extras) (f : Found)
    → check_series page extra ≡ some f
    → (((length (parse_episodes page) == 0) ≡ true)
        × (page.has_magnet ≡ true)
        × (f ≡ magnet_found page))
      ⊎ (((length (parse_episodes page) == 0) ≡ false) × (f ≡ counted_found page extra))
unfolding check_series
check_series-cases page extra f e = elim (Bool-cases (length (parse_episodes page) == 0)) [
  | inl z ↦ elim (Bool-cases page.has_magnet) [
    | inl m ↦ let q : some (magnet_found page) ≡ some f = rw (z, m) at e in inl (z, m, cc)
    | inr m ↦ let q : none ≡ some f = rw (z, m) at e in cc
  ]
  | inr z ↦ let q : some (counted_found page extra) ≡ some f = rw z at e in inr (z, cc)
]

check_series-magnet :
    (page : Page) (extra : Extras)
    → (length (parse_episodes page) == 0) ≡ true
    → page.has_magnet ≡ true
    → check_series page extra ≡ some (magnet_found page)
unfolding check_series
check_series-magnet page extra z m = rw (z, m) refl

check_series-counted :
    (page : Page) (extra : Extras)
    → (length (parse_episodes page) == 0) ≡ false
    → check_series page extra ≡ some (counted_found page extra)
unfolding check_series
check_series-counted page extra z = rw z refl

-- Where no packed id is pending twice, the first `k` pending episodes of a check are marked downloaded, and
-- the page and the floor are as before, the next check finds exactly the others pending, in the same order
-- and with the same labels.
pub check_series-marked :
    (page : Page) (extra extra' : Extras) (k : ℕ) (f : Found)
    → check_series page extra ≡ some f
    → Distinct f.pending
    → get_strings extra' (codes "downloaded_episodes")
      ≡ get_strings extra (codes "downloaded_episodes") ++ take k f.pending
    → get_int extra' (codes "start_season") ≡ get_int extra (codes "start_season")
    → get_int extra' (codes "start_episode") ≡ get_int extra (codes "start_episode")
    → (f' : Found) × (check_series page extra' ≡ some f')
      × (f'.pending ≡ drop k f.pending)
      × (f'.human ≡ drop k f.human)
check_series-marked page extra extra' k f e h marked season episode =
    elim (check_series-cases page extra f e) [
      | inl (z, m, q) ↦ (
        magnet_found page,
        check_series-magnet page extra' z m,
        sym (drop-nil k) ∙ ap (λ g. drop k g.pending) (sym q),
        sym (drop-nil k) ∙ ap (λ g. drop k g.human) (sym q),
      )
      | inr (z, q) ↦
          let left : pending_now extra' ≡ (drop k f.pending, drop k f.human) =
            rw (marked, season, episode, q)
              (pending-take _ _ _ k (parse_episodes page) (subst (λ g. Distinct g.pending) q h)) in
          (
            counted_found page extra',
            check_series-counted page extra' z,
            ap (λ r. r.0) left,
            ap (λ r. r.1) left,
          )
    ]
  where
    pending_now : Extras → List Text × List Text
    pending_now m =
        collect_pending (get_int m (codes "start_season")) (get_int m (codes "start_episode"))
          (get_strings m (codes "downloaded_episodes")) (parse_episodes page)

-- What a check returns, by the episodes of the page.
data Listed (f : Found) : Type 0 where
  by_magnet : f.hash ≡ codes "magnet-fallback" → f.pending ≡ [] → Listed f
  by_count : (n d : ℕ) → f.hash ≡ check_hash n d (length f.pending) → Listed f

check_series-Listed :
    (page : Page) (extra : Extras) (f : Found) → check_series page extra ≡ some f → Listed f
check_series-Listed page extra f e = elim (check_series-cases page extra f e) [
  | inl (z, m, q) ↦ by_magnet (ap (λ g. g.hash) q) (ap (λ g. g.pending) q)
  | inr (z, q) ↦ by_count _ _ (
      ap (λ g. g.hash) q
      ∙ ap
          (λ g.
            check_hash (length (parse_episodes page))
              (length (get_strings extra (codes "downloaded_episodes"))) (length g.pending))
          (sym q))
]

counted_is_no_magnet : (n d p : ℕ) → check_hash n d p ≢ codes "magnet-fallback"
unfolding check_hash
counted_is_no_magnet n d p e =
    let first : ◌≡◌ {A = ℕ} b'e' b'm' = ap (λ s. get_or s 0 0) e in absurd (omega (arith, first))

-- A number is told from what follows it by the first byte that is no digit.
digits-slash :
    (a b r r' : Text)
    → AllDigits a
    → AllDigits b
    → a ++ b'/' ∷ r ≡ b ++ b'/' ∷ r'
    → (a ≡ b) × (r ≡ r')
digits-slash [] [] r r' p q e = (refl, ap (drop 1) e)
digits-slash [] (c ∷ b) r r' p q e = absurd (omega (arith, ap (λ s. get_or s 0 0) e, q.0))
digits-slash (c ∷ a) [] r r' p q e = absurd (omega (arith, ap (λ s. get_or s 0 0) e, p.0))
digits-slash (c ∷ a) (d ∷ b) r r' p q e =
    let rest = digits-slash a b r r' p.1 q.1 (ap (drop 1) e) in
    let first : c ≡ d = ap (λ s. get_or s 0 0) e in
    (ap (λ t. c ∷ t) rest.0 ∙ ap (λ x. x ∷ b) first, rest.1)

itoa_injective : (n m : ℕ) → itoa n ≡ itoa m → n ≡ m
itoa_injective n m e = let a = parse_uint-itoa n in let b = parse_uint-itoa m in cc

check_hash_injective :
    (n d p n' d' p' : ℕ) → check_hash n d p ≡ check_hash n' d' p' → (n ≡ n') × (d ≡ d') × (p ≡ p')
unfolding check_hash
check_hash_injective n d p n' d' p' e =
    let a =
      digits-slash (itoa n) (itoa n') _ _ (itoa-AllDigits n) (itoa-AllDigits n') (ap (drop 4) e) in
    let b =
      digits-slash (itoa d) (itoa d') _ _ (itoa-AllDigits d) (itoa-AllDigits d')
        (ap (drop 5) a.1) in
    (itoa_injective n n' a.0, itoa_injective d d' b.0, itoa_injective p p' (ap (drop 8) b.1))

-- Two checks, of whatever pages and topics, that find different numbers of episodes pending have different
-- hashes, so the scheduler sees an update between them.
pub check_series-differs :
    (page page' : Page) (extra extra' : Extras) (f f' : Found)
    → check_series page extra ≡ some f
    → check_series page' extra' ≡ some f'
    → length f.pending ≢ length f'.pending
    → f.hash ≢ f'.hash
check_series-differs page page' extra extra' f f' e e' other same =
    apart (check_series-Listed page extra f e) (check_series-Listed page' extra' f' e')
  where
    apart : Listed f → Listed f' → ⊥
    apart (by_magnet h p) (by_magnet h' p') = other (ap length (p ∙ sym p'))
    apart (by_magnet h p) (by_count n d h') = counted_is_no_magnet n d _ (sym h' ∙ sym same ∙ h)
    apart (by_count n d h) (by_magnet h' p') = counted_is_no_magnet n d _ (sym h ∙ same ∙ h')
    apart (by_count n d h) (by_count n' d' h') =
        other (check_hash_injective n d _ n' d' _ (sym h ∙ same ∙ h')).2
