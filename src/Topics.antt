-- ===== src/Topics.antt =====
-- The checks on a topic's settings: backend/internal/topics/policy.go and foldername.go.
pub mod Create
use marauder.Prelude.{
  ℕ, ◌≡◌, refl, inl, inr, Bool, true, false, not, ◌&&◌, ◌||◌, Option, none, some, List, [], ◌∷◌,
  ◌++◌, map, arith, ltb, ◌==◌, if◌then◌else◌, is_some, Bool-cases, length, any, Text, codes,
  text_eq, text_eq_refl, has_prefix, cut,
}
use marauder.Torrentmeta.Layout.{is_padding_path, strip_root}
use marauder.Scheduler.Delivery.{
  FolderMode, unset, default_name, custom_name, keep_name, other_mode,
}

pub data PolicyError : Type 0 where
  only_new_files_deletes_data folder_name_deletes_data : PolicyError

-- `usesFolderName(mode)`.
unfoldable pub uses_folder_name : FolderMode → Bool
uses_folder_name unset = false
uses_folder_name default_name = false
uses_folder_name custom_name = true
uses_folder_name keep_name = true
uses_folder_name other_mode = true

-- `ValidUpdatePolicy(...)`; a nil error is `none`.
unfoldable pub valid_update_policy :
    (replaces deletes_data only_new_files : Bool) → FolderMode → Option PolicyError
unfolding uses_folder_name
valid_update_policy replaces deletes_data only_new_files mode =
    if not replaces || not deletes_data
    then none
    else if only_new_files
    then some only_new_files_deletes_data
    else if uses_folder_name mode
    then some folder_name_deletes_data
    else none

pub data NameError : Type 0 where
  unknown_mode missing too_long dots padding forbidden control final_dot reserved : NameError

abbrev pub max_folder_name_bytes : ℕ
max_folder_name_bytes = 255

-- `windowsReserved`.
abbrev pub windows_reserved : List Text
windows_reserved = map codes (
    "CON" ∷ "PRN" ∷ "AUX" ∷ "NUL" ∷ "COM1" ∷ "COM2" ∷ "COM3" ∷ "COM4" ∷ "COM5" ∷ "COM6" ∷ "COM7"
    ∷ "COM8" ∷ "COM9" ∷ "LPT1" ∷ "LPT2" ∷ "LPT3" ∷ "LPT4" ∷ "LPT5" ∷ "LPT6" ∷ "LPT7" ∷ "LPT8"
    ∷ "LPT9" ∷ [])

-- `/\<>:"|?*`.
abbrev pub is_forbidden : ℕ → Bool
is_forbidden c =
    c == b'/'
    || c == b'\\'
    || c == b'<'
    || c == b'>'
    || c == b':'
    || c == b'"'
    || c == b'|'
    || c == b'?'
    || c == b'*'

-- `strings.HasSuffix(name, ".")`.
unfoldable pub ends_with_dot : Text → Bool
ends_with_dot [] = false
ends_with_dot (c ∷ []) = c == b'.'
ends_with_dot (c ∷ d ∷ s) = ends_with_dot (d ∷ s)

-- What the code calls of `strings` and `unicode`.
pub record Strings : Type 0 where
  pub trim_space : Text → Text
  pub to_upper : Text → Text
  pub has_control : Text → Bool

-- A result: the name to store, or an error.
pub data Normalized : Type 0 where
  stored_name : Text → Normalized
  invalid : NameError → Normalized

unfoldable pub checked : Text → Option NameError → Normalized
checked name none = stored_name name
checked name (some e) = invalid e

module _ (pk : Strings) where
  -- `checkFolderName(name)`; a nil error is `none`.
  unfoldable pub check_folder_name : Text → Option NameError
  unfolding ends_with_dot
  check_folder_name name =
      if text_eq name []
      then some missing
      else if ltb max_folder_name_bytes (length name)
      then some too_long
      else if text_eq name (codes ".") || text_eq name (codes "..")
      then some dots
      else if text_eq name (codes ".pad")
      then some padding
      else if any is_forbidden name
      then some forbidden
      else if pk.has_control name
      then some control
      else if ends_with_dot name
      then some final_dot
      else if any (λ w. text_eq w (pk.to_upper (cut b'.' name).0)) windows_reserved
      then some reserved
      else none

  -- `NormalizeFolderName(mode, name)`.
  unfoldable pub normalize_folder_name : FolderMode → Text → Normalized
  unfolding check_folder_name checked
  normalize_folder_name unset name = stored_name []
  normalize_folder_name default_name name = stored_name []
  normalize_folder_name keep_name name = stored_name []
  normalize_folder_name other_mode name = invalid unknown_mode
  normalize_folder_name custom_name name =
      checked (pk.trim_space name) (check_folder_name (pk.trim_space name))

-- The settings are refused exactly if the topic replaces its previous version with its data and also
-- skips that version's files or keeps one folder for both versions.
pub valid_update_policy_lem :
    (replaces deletes_data only_new_files : Bool) (mode : FolderMode)
    → is_some (valid_update_policy replaces deletes_data only_new_files mode)
      ≡ (replaces && deletes_data && (only_new_files || uses_folder_name mode))
unfolding valid_update_policy
valid_update_policy_lem false d o mode = refl
valid_update_policy_lem true false o mode = refl
valid_update_policy_lem true true true mode = refl
valid_update_policy_lem true true false mode = elim (Bool-cases (uses_folder_name mode)) [
  | inl e ↦ rw e refl
  | inr e ↦ rw e refl
]

cut-plain :
    (name rest : Text)
    → any (λ c. is_forbidden c) name ≡ false
    → cut b'/' (name ++ b'/' ∷ rest) ≡ (name, rest, true)
unfolding cut
cut-plain [] rest h = refl
cut-plain (c ∷ name) rest h = ground (arith, cut-plain name rest)

padding-plain :
    (name rest : Text)
    → any (λ c. is_forbidden c) name ≡ false
    → has_prefix (name ++ b'/' ∷ rest) (codes ".pad/") ≡ true
    → text_eq name (codes ".pad") ≡ true
unfolding has_prefix text_eq
padding-plain [] rest n h = ground arith
padding-plain (a ∷ []) rest n h = ground arith
padding-plain (a ∷ b ∷ []) rest n h = ground arith
padding-plain (a ∷ b ∷ c ∷ []) rest n h = ground arith
padding-plain (a ∷ b ∷ c ∷ d ∷ []) rest n h = ground arith
padding-plain (a ∷ b ∷ c ∷ d ∷ e ∷ name) rest n h = ground arith

-- A name that the check accepts serves as a torrent's top folder: a path under it is not taken for
-- padding, and taking the folder off the path gives the rest.
check_folder_name-root :
    (pk : Strings) (name rest : Text)
    → check_folder_name pk name ≡ none
    → text_eq rest [] ≡ false
    → (is_padding_path (name ++ b'/' ∷ rest) ≡ false)
      × (strip_root name (name ++ b'/' ∷ rest) ≡ some rest)
unfolding check_folder_name is_padding_path strip_root
check_folder_name-root pk name rest h r =
    let plain : any (λ c. is_forbidden c) name ≡ false = ground (arith, h) in
    let not_pad : text_eq name (codes ".pad") ≡ false = ground (arith, h) in
    let not_empty : text_eq name [] ≡ false = ground (arith, h) in
    (
      elim (Bool-cases (is_padding_path (name ++ b'/' ∷ rest))) [
        | inl p ↦ absurd (cc (not_pad, padding-plain name rest plain p))
        | inr p ↦ p
      ],
      rw (cut-plain name rest plain) (ground (arith, not_empty, r, text_eq_refl name)),
    )
