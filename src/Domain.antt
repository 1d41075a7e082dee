-- ===== src/Domain.antt =====
-- backend/internal/domain/domain.go: the records that the components share.
use marauder.Prelude.{◌≡◌, ◌↔◌, Bool, true, ◌&&◌, arith, Text, text_eq, text_eq_iff}
use marauder.Prelude.Int.{ℤ, eq_ℤ, eq_ℤ_iff}

-- One file of a torrent's content. `size` is an int64.
pub record TorrentFile : Type 0 where
  pub path : Text
  pub size : ℤ

-- One file of a torrent as a download client lists it, under the client's own index.
pub record ClientFile : Type 0 where
  pub index : ℤ
  pub path : Text
  pub size : ℤ
  pub wanted : Bool

-- Go's `==` on two values of the struct, which is also what keys a map by it.
unfoldable pub file_eq : TorrentFile → TorrentFile → Bool
file_eq a b = text_eq a.path b.path && eq_ℤ a.size b.size

pub file_eq→eq : (a b : TorrentFile) → file_eq a b ≡ true → a ≡ b
unfolding file_eq
file_eq→eq a b h = ground (arith, (text_eq_iff a.path b.path).0, (eq_ℤ_iff a.size b.size).0)

pub file_eq_refl : (a : TorrentFile) → file_eq a a ≡ true
unfolding file_eq
file_eq_refl a = ground (arith, marauder.Prelude.Strings.text_eq_refl a.path)

pub file_eq_iff : (a b : TorrentFile) → (file_eq a b ≡ true) ↔ (a ≡ b)
file_eq_iff a b =
    (file_eq→eq a b, λ e. mathlib.Core.Path.subst (λ c. file_eq a c ≡ true) e (file_eq_refl a))
