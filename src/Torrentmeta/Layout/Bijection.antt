-- ===== src/Torrentmeta/Layout/Bijection.antt =====
-- What a pairing of `bijection` in backend/internal/torrentmeta/torrentmeta.go is.
use marauder.Prelude.{
  ◌+◌, ◌-◌, ◌≤◌, ◌≡◌, refl, sym, ◌∙◌, ◌↔◌, ◌⊎◌, inl, inr, true, false, none, some, List, [], ◌∷◌,
  ◌++◌, arith, ◌==◌, if◌then◌else◌, ◌>>=◌, >>=-eq-some, Bool-cases, length, length-map, Text,
}
use marauder.Prelude.Int.{ℤ, eq_ℤ_iff}
use mathlib.Core.List.{append_assoc}
use marauder.Domain.{TorrentFile, ClientFile, file_eq, file_eq_iff}
use marauder.Torrentmeta.Skip.{count_file, SameFiles}
use marauder.Torrentmeta.Layout.{
  Mapping, MapPath, is_padding_path, has_index, Pairing, pair_file, pair_files, bijection,
}
use marauder.Torrentmeta.Layout.Pairs.{
  files_of, placed, distinct, erase_file, count-erase, length-erase, same_of_le, has_index-append,
  pair_files_lem,
}

pub same_length : (xs ys : List TorrentFile) → SameFiles xs ys → length xs ≡ length ys
unfolding count_file
same_length [] [] h = refl
same_length [] (y ∷ ys) h = absurd (ground (arith, h y, file_eq_iff y y))
same_length (x ∷ xs) ys h =
    let at_x : 1 ≤ count_file x ys = ground (arith, h x, file_eq_iff x x) in
    let ih =
      same_length xs (erase_file x ys)
        (λ g. ground (arith, h g, count-erase x g ys, file_eq_iff g x)) in
    omega (arith, ih, length-erase x ys at_x)

distinct-append_tail : (xs ys : Mapping) → distinct (xs ++ ys) ≡ true → distinct xs ≡ true
unfolding distinct
distinct-append_tail [] ys h = refl
distinct-append_tail ((i, f) ∷ xs) ys h =
    ground (arith, distinct-append_tail xs ys, has_index-append xs ys i)

has_index-distinct :
    (xs ys : Mapping) (i : ℤ) (f : TorrentFile)
    → distinct (xs ++ (i, f) ∷ ys) ≡ true
    → has_index xs i ≡ false
unfolding distinct has_index
has_index-distinct [] ys i f h = refl
has_index-distinct ((j, g) ∷ xs) ys i f h = ground (
  arith,
  has_index-distinct xs ys i f,
  has_index-append xs ((i, f) ∷ ys) j,
  eq_ℤ_iff i j,
  eq_ℤ_iff j i,
)

pub placed-cons :
    (map_path : MapPath) (c : ClientFile) (cs : List ClientFile) {ps : Mapping}
    → placed map_path (c ∷ cs) ≡ some ps
    → (p : Text) × (map_path c.path ≡ some p)
      × (((is_padding_path p ≡ true) × (placed map_path cs ≡ some ps))
          ⊎ ((is_padding_path p ≡ false)
              × ((qs : Mapping) × (placed map_path cs ≡ some qs)
                  × (ps ≡ (c.index, record { path = p; size = c.size }) ∷ qs))))
unfolding placed
placed-cons map_path c cs {ps} e =
    let (p, reads, e1) =
      >>=-eq-some (map_path c.path)
        (λ p.
          if is_padding_path p
          then placed map_path cs
          else (placed map_path cs >>= λ out.
              some ((c.index, record { path = p; size = c.size }) ∷ out)))
        e in
    elim (Bool-cases (is_padding_path p)) [
      | inl pad ↦ (p, reads, inl (pad, rw pad at e1))
      | inr real ↦
          let (qs, e2, e3) =
            >>=-eq-some (placed map_path cs)
              (λ out. some ((c.index, record { path = p; size = c.size }) ∷ out)) (rw real at e1) in
          (p, reads, inr (real, (qs, e2, cc)))
    ]

take_file : ClientFile → Text → Pairing → Pairing
take_file c p s =
    let key : TorrentFile = record { path = p; size = c.size } in
    record {
      remaining = λ f. if file_eq f key then s.remaining f - 1 else s.remaining f;
      out = s.out ++ (c.index, key) ∷ [];
    }

pair_file_padding :
    (c : ClientFile) (p : Text) (s : Pairing) → is_padding_path p ≡ true → pair_file c p s ≡ some s
unfolding pair_file
pair_file_padding c p s h = rw h

pair_file_take :
    (c : ClientFile) (p : Text) (s : Pairing)
    → is_padding_path p ≡ false
    → 1 ≤ s.remaining (record { path = p; size = c.size })
    → has_index s.out c.index ≡ false
    → pair_file c p s ≡ some (take_file c p s)
unfolding pair_file take_file
pair_file_take c p s real left free =
    elim (Bool-cases (s.remaining (record { path = p; size = c.size }) == 0)) [
      | inl zero_left ↦ absurd (ground arith)
      | inr some_left ↦ rw (real, some_left, free)
    ]

pair_files_complete :
    (map_path : MapPath) (cs : List ClientFile) (s : Pairing) {ps : Mapping}
    → placed map_path cs ≡ some ps
    → ((f : TorrentFile) → count_file f (files_of ps) ≤ s.remaining f)
    → distinct (s.out ++ ps) ≡ true
    → (t : Pairing) × (pair_files map_path cs s ≡ some t)
unfolding pair_files count_file take_file
pair_files_complete map_path [] s r h d = (s, refl)
pair_files_complete map_path (c ∷ cs) s {ps} r h d =
    let (p, reads, how) = placed-cons map_path c cs r in
    elim how [
      | inl padding ↦
          let (t, e) = pair_files_complete map_path cs s padding.1 h d in
          (t, rw (reads, pair_file_padding c p s padding.0, e))
      | inr real ↦
          let key : TorrentFile = record { path = p; size = c.size } in
          let (qs, later, is_ps) = real.1 in
          let enough : (f : TorrentFile)
              → (if file_eq f key then 1 else 0) + count_file f (files_of qs) ≤ s.remaining f =
            λ f. rw is_ps at (h f) in
          let unique : distinct (s.out ++ (c.index, key) ∷ qs) ≡ true = rw is_ps at d in
          let (t, e) =
            pair_files_complete map_path cs (take_file c p s) later (λ f. ground (arith, enough f))
              (rw (append_assoc s.out ((c.index, key) ∷ []) qs) unique) in
          (
            t,
            rw (
              reads,
              pair_file_take c p s real.0 (ground (arith, enough key, file_eq_iff key key))
                  (has_index-distinct s.out qs c.index key unique),
              e,
            ),
          )
    ]

bijection-length :
    (files : List ClientFile) (manifest : List TorrentFile) (map_path : MapPath) {out : Mapping}
    → bijection files manifest map_path ≡ some out
    → (t : Pairing) × (pair_files map_path files
          (record { remaining = λ f. count_file f manifest; out = [] })
        ≡ some t)
      × (t.out ≡ out)
      × (length out ≡ length manifest)
unfolding bijection
bijection-length files manifest map_path e =
    let s0 : Pairing = record { remaining = λ f. count_file f manifest; out = [] } in
    let (t, ran, e1) =
      >>=-eq-some (pair_files map_path files s0)
        (λ s. if length s.out == length manifest then some s.out else none) e in
    (t, ran, ground arith, ground arith)

bijection_sound :
    (files : List ClientFile) (manifest : List TorrentFile) (map_path : MapPath) {out : Mapping}
    → bijection files manifest map_path ≡ some out
    → (placed map_path files ≡ some out) × SameFiles (files_of out) manifest × (distinct out ≡ true)
unfolding distinct
bijection_sound files manifest map_path {out} e =
    let (t, ran, same, fits) = bijection-length files manifest map_path e in
    let (ps, p) = pair_files_lem map_path files _ ran in
    let is_ps : ps ≡ out = sym p.grown ∙ same in
    let below : (f : TorrentFile) → count_file f (files_of out) ≤ count_file f manifest =
      λ f. rw (← is_ps) (omega (arith, p.used f)) in
    (
      rw (← is_ps) p.read,
      same_of_le (files_of out) manifest below
          (omega (arith, fits, length-map (λ (e : ℤ × TorrentFile). e.1) out)),
      rw (← same) (p.unique refl),
    )

bijection_complete :
    (files : List ClientFile) (manifest : List TorrentFile) (map_path : MapPath) (out : Mapping)
    → placed map_path files ≡ some out
    → SameFiles (files_of out) manifest
    → distinct out ≡ true
    → bijection files manifest map_path ≡ some out
unfolding bijection
bijection_complete files manifest map_path out r same d =
    let s0 : Pairing = record { remaining = λ f. count_file f manifest; out = [] } in
    let (t, ran) = pair_files_complete map_path files s0 r (λ f. omega (arith, same f)) d in
    let (ps, p) = pair_files_lem map_path files s0 ran in
    let is_out : t.out ≡ out = cc (p.grown, p.read, r) in
    let fits : length out ≡ length manifest = omega (
      arith,
      same_length (files_of out) manifest same,
      length-map (λ (e : ℤ × TorrentFile). e.1) out,
    ) in
    rw (ran, is_out) (rw (fits) (ground arith))

-- One layout is accepted exactly if it reads every client path, gives no index twice, and the files
-- it names, padding left out, are those of the torrent, each as often; and then the mapping it
-- returns is that reading.
pub bijection_exact :
    (files : List ClientFile) (manifest : List TorrentFile) (map_path : MapPath) (out : Mapping)
    → (bijection files manifest map_path ≡ some out) ↔ (
        (placed map_path files ≡ some out)
        × SameFiles (files_of out) manifest
        × (distinct out ≡ true))
bijection_exact files manifest map_path out = (
  bijection_sound files manifest map_path,
  λ h. bijection_complete files manifest map_path out h.0 h.1 h.2,
)
