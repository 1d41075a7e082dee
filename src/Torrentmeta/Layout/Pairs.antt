-- ===== src/Torrentmeta/Layout/Pairs.antt =====
-- How each step of `pair_files` places one file, for `bijection` of backend/internal/torrentmeta.
use marauder.Prelude.{
  ◌+◌, ◌-◌, ◌≤◌, ◌≡◌, refl, ap, ◌∙◌, ◌⊎◌, inl, inr, Bool, true, false, not, ◌&&◌, ◌||◌, Option,
  some, List, [], ◌∷◌, ◌++◌, map, arith, if◌then◌else◌, ◌>>=◌, >>=-eq-some, Bool-cases, length,
  Text,
}
use marauder.Prelude.Int.{ℤ, eq_ℤ_iff}
use mathlib.Core.List.{append-nil, append_assoc}
use marauder.Domain.{TorrentFile, ClientFile, file_eq, file_eq_iff}
use marauder.Torrentmeta.Skip.{count_file, SameFiles}
use marauder.Torrentmeta.Layout.{
  Mapping, MapPath, is_padding_path, has_index, Pairing, pair_file, pair_files,
}

abbrev pub files_of : Mapping → List TorrentFile
files_of = map (λ e. e.1)

-- The pairs that a layout makes of the client's files, with no regard to the torrent: padding is
-- left out, and `none` means that the layout does not read some path.
unfoldable pub placed : MapPath → List ClientFile → Option Mapping
placed map_path [] = some []
placed map_path (c ∷ cs) =
    let rest = placed map_path cs in
    map_path c.path >>= λ p.
    if is_padding_path p
    then rest
    else (rest >>= λ out. some ((c.index, record { path = p; size = c.size }) ∷ out))

-- No index stands twice in a mapping.
unfoldable pub distinct : Mapping → Bool
distinct [] = true
distinct ((i, f) ∷ out) = not (has_index out i) && distinct out

count-append :
    (f : TorrentFile) (xs ys : List TorrentFile)
    → count_file f (xs ++ ys) ≡ count_file f xs + count_file f ys
unfolding count_file
count-append f [] ys = omega arith
count-append f (x ∷ xs) ys = omega (arith, count-append f xs ys)

files_of-append : (xs ys : Mapping) → files_of (xs ++ ys) ≡ files_of xs ++ files_of ys
files_of-append [] ys = refl
files_of-append (x ∷ xs) ys = ap (λ r. x.1 ∷ r) (files_of-append xs ys)

unfoldable pub erase_file : TorrentFile → List TorrentFile → List TorrentFile
erase_file f [] = []
erase_file f (g ∷ gs) = if file_eq f g then gs else g ∷ erase_file f gs

pub count-erase :
    (f g : TorrentFile) (ys : List TorrentFile)
    → count_file g (erase_file f ys)
      ≡ (if file_eq g f then count_file g ys - 1 else count_file g ys)
unfolding count_file erase_file
count-erase f g [] = ground arith
count-erase f g (y ∷ ys) =
    ground (arith, count-erase f g ys, file_eq_iff f y, file_eq_iff g f, file_eq_iff g y)

pub length-erase :
    (f : TorrentFile) (ys : List TorrentFile)
    → 1 ≤ count_file f ys
    → length (erase_file f ys) + 1 ≡ length ys
unfolding count_file erase_file
length-erase f [] h = omega arith
length-erase f (y ∷ ys) h = ground (arith, length-erase f ys)

-- A list that holds nothing more often than another, and is as long, holds the same files.
pub same_of_le :
    (xs ys : List TorrentFile)
    → ((f : TorrentFile) → count_file f xs ≤ count_file f ys)
    → length xs ≡ length ys
    → SameFiles xs ys
unfolding count_file
same_of_le [] [] h e f = refl
same_of_le [] (y ∷ ys) h e f = absurd (omega arith)
same_of_le (x ∷ xs) ys h e f =
    let at_x : 1 ≤ count_file x ys = ground (arith, h x, file_eq_iff x x) in
    let below : (g : TorrentFile) → count_file g xs ≤ count_file g (erase_file x ys) =
      λ g. ground (arith, h g, count-erase x g ys, file_eq_iff g x) in
    let ih = same_of_le xs (erase_file x ys) below (omega (arith, length-erase x ys at_x)) f in
    ground (arith, ih, count-erase x f ys, file_eq_iff f x, h x, at_x, file_eq_iff x x)

-- What the loop has done for the files `cs`, from the variables `s` to the variables `t`.
pub record Paired (map_path : MapPath) (cs : List ClientFile) (s t : Pairing) (ps : Mapping)
    : Type 0 where
  pub read : placed map_path cs ≡ some ps
  pub grown : t.out ≡ s.out ++ ps
  pub used : (f : TorrentFile) → t.remaining f + count_file f (files_of ps) ≡ s.remaining f
  pub unique : distinct s.out ≡ true → distinct t.out ≡ true

pub has_index-append :
    (xs ys : Mapping) (i : ℤ) → has_index (xs ++ ys) i ≡ (has_index xs i || has_index ys i)
unfolding has_index
has_index-append [] ys i = refl
has_index-append ((j, f) ∷ xs) ys i = ground (arith, has_index-append xs ys i)

distinct-snoc :
    (xs : Mapping) (i : ℤ) (f : TorrentFile)
    → distinct (xs ++ (i, f) ∷ []) ≡ (distinct xs && not (has_index xs i))
unfolding distinct has_index
distinct-snoc [] i f = refl
distinct-snoc ((j, g) ∷ xs) i f =
    ground
      (arith, distinct-snoc xs i f, has_index-append xs ((i, f) ∷ []) j, eq_ℤ_iff i j, eq_ℤ_iff j i)

-- One file of the loop: padding changes nothing, another file takes an entry and an index.
pub record Taken (c : ClientFile) (p : Text) (s s' : Pairing) : Type 0 where
  pub free : has_index s.out c.index ≡ false
  pub left :
      (f : TorrentFile)
      → s'.remaining f + (if file_eq f (record { path = p; size = c.size }) then 1 else 0)
        ≡ s.remaining f
  pub added : s'.out ≡ s.out ++ (c.index, record { path = p; size = c.size }) ∷ []

pair_file-cases :
    (c : ClientFile) (p : Text) (s : Pairing) {s' : Pairing}
    → pair_file c p s ≡ some s'
    → ((is_padding_path p ≡ true) × (s' ≡ s)) ⊎ ((is_padding_path p ≡ false) × Taken c p s s')
unfolding pair_file
pair_file-cases c p s {s'} e = elim (Bool-cases (is_padding_path p)) [
  | inl pad ↦ inl (pad, ground arith)
  | inr real ↦ inr (
    real,
    record {
      free = ground arith;
      left = λ f. ground (arith, file_eq_iff f (record { path = p; size = c.size }));
      added = ground arith;
    },
  )
]

module _ (map_path : MapPath) (c : ClientFile) (cs : List ClientFile) (p : Text) (s s' t : Pairing)
    (ps : Mapping) (reads : map_path c.path ≡ some p) (rest : Paired map_path cs s' t ps) where
  Paired-padding : is_padding_path p ≡ true → s' ≡ s → Paired map_path (c ∷ cs) s t ps
  unfolding placed
  Paired-padding pad same = record {
    read = rw (reads, pad) rest.read;
    grown = rw same at rest.grown;
    used = λ f. rw same at (rest.used f);
    unique = λ d. rest.unique (rw same d);
  }

  Paired-file :
      is_padding_path p ≡ false
      → Taken c p s s'
      → Paired map_path (c ∷ cs) s t ((c.index, record { path = p; size = c.size }) ∷ ps)
  unfolding placed count_file
  Paired-file real taken = record {
    read = rw (reads, real, rest.read);
    grown = rest.grown ∙ (rw taken.added (append_assoc s.out _ ps));
    used = λ f. ground (arith, taken.left f, rest.used f);
    unique = λ d. rest.unique (rw taken.added (rw distinct-snoc (rw (d, taken.free))));
  }

pub pair_files_lem :
    (map_path : MapPath) (cs : List ClientFile) (s : Pairing) {t : Pairing}
    → pair_files map_path cs s ≡ some t
    → (ps : Mapping) × Paired map_path cs s t ps
unfolding pair_files placed count_file
pair_files_lem map_path [] s {t} e =
    let same : s ≡ t = cc in
    (
      [],
      record {
        read = refl;
        grown = rw append-nil (cc);
        used = λ f. ground arith;
        unique = λ d. rw (← same) d;
      },
    )
pair_files_lem map_path (c ∷ cs) s {t} e =
    let (p, reads, e1) =
      >>=-eq-some (map_path c.path) (λ p. pair_file c p s >>= λ s'. pair_files map_path cs s') e in
    let (s', made, e2) = >>=-eq-some (pair_file c p s) (λ s'. pair_files map_path cs s') e1 in
    let (ps, rest) = pair_files_lem map_path cs s' e2 in
    elim (pair_file-cases c p s made) [
      | inl h ↦ (ps, Paired-padding map_path c cs p s s' t ps reads rest h.0 h.1)
      | inr h ↦ (
        (c.index, record { path = p; size = c.size }) ∷ ps,
        Paired-file map_path c cs p s s' t ps reads rest h.0 h.1,
      )
    ]
