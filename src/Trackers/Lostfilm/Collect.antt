-- ===== src/Trackers/Lostfilm/Collect.antt =====
-- How the loop of `Check` of LostFilm fares where more episodes are downloaded.
use marauder.Prelude.{
  ℕ, zero, suc, ◌≡◌, refl, sym, ap, ◌∙◌, inl, inr, Bool, true, false, ◌||◌, List, [], ◌∷◌, ◌++◌,
  arith, Bool-cases, take, drop, any, drop-nil, Text, text_eq, text_eq_swap, text_eq_refl,
}
use marauder.Prelude.Int.{ℤ}
use mathlib.Core.List.{append-nil}
use marauder.Trackers.Lostfilm.{
  EpisodeRef, packed_id, season_episode_key, is_below_floor, collect_pending,
}

-- No text stands twice in the list.
abbrev pub Distinct : List Text → Type 0
Distinct [] = Unit {0}
Distinct (t ∷ ts) = (any (text_eq t) ts ≡ false) × Distinct ts

any-append : (f : Text → Bool) (xs ys : List Text) → any f (xs ++ ys) ≡ (any f xs || any f ys)
any-append f [] ys = refl
any-append f (x ∷ xs) ys = let ih = any-append f xs ys in ground (arith, ih)

any-drop : (f : Text → Bool) (k : ℕ) (xs : List Text) → any f xs ≡ false → any f (drop k xs) ≡ false
any-drop f zero xs h = h
any-drop f (suc k) [] h = refl
any-drop f (suc k) (x ∷ xs) h = any-drop f k xs (ground (arith, h))

any-more :
    (x p : Text) (xs ys : List Text)
    → any (text_eq x) (xs ++ p ∷ ys) ≡ (any (text_eq x) (xs ++ ys) || text_eq x p)
any-more x p xs ys =
    let a = any-append (text_eq x) xs (p ∷ ys) in
    let b = any-append (text_eq x) xs ys in ground (arith, a, b)

module _ (ss se : ℤ) where
  abbrev pending_of : List Text → List EpisodeRef → List Text × List Text
  pending_of old es = collect_pending ss se old es

  abbrev is_dropped : List Text → EpisodeRef → Bool
  is_dropped old e = is_below_floor ss se e || any (text_eq (packed_id e)) old

  pending-skip :
      (old : List Text) (e : EpisodeRef) (es : List EpisodeRef)
      → is_dropped old e ≡ true
      → pending_of old (e ∷ es) ≡ pending_of old es
  unfolding collect_pending
  pending-skip old e es d = rw d refl

  pending-keep :
      (old : List Text) (e : EpisodeRef) (es : List EpisodeRef)
      → is_dropped old e ≡ false
      → pending_of old (e ∷ es)
        ≡ (packed_id e ∷ (pending_of old es).0, season_episode_key e ∷ (pending_of old es).1)
  unfolding collect_pending
  pending-keep old e es d = rw d refl

  -- One more downloaded id changes nothing where it is not pending.
  pending-more :
      (old new : List Text) (p : Text) (es : List EpisodeRef)
      → ((x : Text) → any (text_eq x) new ≡ (any (text_eq x) old || text_eq x p))
      → any (text_eq p) (pending_of old es).0 ≡ false
      → pending_of new es ≡ pending_of old es
  unfolding collect_pending
  pending-more old new p [] more h = refl
  pending-more old new p (e ∷ es) more h = elim (Bool-cases (is_dropped old e)) [
    | inl d ↦
        let m = more (packed_id e) in
        let ih = pending-more old new p es more (rw (pending-skip old e es d) at h) in
        pending-skip new e es (ground (arith, m, d)) ∙ ih ∙ sym (pending-skip old e es d)
    | inr d ↦
        let m = more (packed_id e) in
        let r : any (text_eq p) (packed_id e ∷ (pending_of old es).0) ≡ false =
          rw (pending-keep old e es d) at h in
        let sw = text_eq_swap p (packed_id e) in
        let ih = pending-more old new p es more (ground (arith, r)) in
        pending-keep new e es (ground (arith, m, d, r, sw))
        ∙ ap (λ r. (packed_id e ∷ r.0, season_episode_key e ∷ r.1)) ih
        ∙ sym (pending-keep old e es d)
  ]

  pending-none : (old : List Text) → pending_of old [] ≡ ([], [])
  unfolding collect_pending
  pending-none old = refl

  -- What is left where the oldest pending episode is among those that are marked.
  pending-marked :
      (old : List Text) (k : ℕ) (e : EpisodeRef) (es : List EpisodeRef)
      → is_dropped old e ≡ false
      → Distinct (packed_id e ∷ (pending_of old es).0)
      → pending_of (old ++ take k (pending_of old es).0) es
        ≡ (drop k (pending_of old es).0, drop k (pending_of old es).1)
      → pending_of (old ++ packed_id e ∷ take k (pending_of old es).0) (e ∷ es)
        ≡ (drop k (pending_of old es).0, drop k (pending_of old es).1)
  pending-marked old k e es d (fresh, h) ih =
      let p = packed_id e in
      let t = take k (pending_of old es).0 in
      let self = text_eq_refl p in
      let here = any-more p p old t in
      let alone : any (text_eq p) (pending_of (old ++ t) es).0 ≡ false =
        ap (λ r. any (text_eq p) r.0) ih ∙ any-drop (text_eq p) k (pending_of old es).0 fresh in
      pending-skip (old ++ p ∷ t) e es (ground (arith, here, self))
      ∙ pending-more (old ++ t) (old ++ p ∷ t) p es (λ x. any-more x p old t) alone
      ∙ ih

  pub pending-take :
      (old : List Text) (k : ℕ) (es : List EpisodeRef)
      → Distinct (pending_of old es).0
      → pending_of (old ++ take k (pending_of old es).0) es
        ≡ (drop k (pending_of old es).0, drop k (pending_of old es).1)
  pending-take old k [] h = rw (pending-none old, pending-none (old ++ take k []), drop-nil k) refl
  pending-take old k (e ∷ es) h = elim (Bool-cases (is_dropped old e)) [
    | inl d ↦
        let t = take k (pending_of old es).0 in
        let a = any-append (text_eq (packed_id e)) old t in
        rw (pending-skip old e es d) (
          pending-skip (old ++ t) e es (ground (arith, a, d))
          ∙ pending-take old k es (rw (pending-skip old e es d) at h))
    | inr d ↦
        let h' : Distinct (packed_id e ∷ (pending_of old es).0) =
          rw (pending-keep old e es d) at h in
        rw (pending-keep old e es d) (counted k d h' (λ n. pending-take old n es h'.1))
  ]
    where
      counted :
          (k : ℕ)
          → is_dropped old e ≡ false
          → Distinct (packed_id e ∷ (pending_of old es).0)
          → ((n : ℕ)
              → pending_of (old ++ take n (pending_of old es).0) es
                ≡ (drop n (pending_of old es).0, drop n (pending_of old es).1))
          → pending_of (old ++ take k (packed_id e ∷ (pending_of old es).0)) (e ∷ es) ≡ (
            drop k (packed_id e ∷ (pending_of old es).0),
            drop k (season_episode_key e ∷ (pending_of old es).1),
          )
      counted zero d h ih =
          ap (λ l. pending_of l (e ∷ es)) (append-nil old) ∙ pending-keep old e es d
      counted (suc n) d h ih = pending-marked old n e es d h (ih n)
