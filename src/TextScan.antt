-- ===== src/TextScan.antt =====
-- Scanning loops over a line of text that menu-loader/bootmenu.cpp and network-loader/netconfig.cpp
-- both spell out: white space, trimming, and the search for a separator.
pub mod Laws
pub mod Lines
use rapi_bootloader.Base.{
  ℕ, zero, suc, Bool, ◌||◌, [], ◌∷◌, ◌==◌, if◌then◌else◌, length, get_or, take, Bytes, nul,
}

unfoldable pub is_space : ℕ → Bool
is_space c = c == b' ' || c == b'\t' || c == b'\r' || c == b'\n'

-- The loop that advances over leading white space.
unfoldable pub trim_start : Bytes → Bytes
trim_start [] = []
trim_start (c ∷ cs) = let rest = trim_start cs in if is_space c then rest else c ∷ cs

-- The loop that takes trailing white space off a length.
unfoldable pub trimmed_length : Bytes → ℕ → ℕ
trimmed_length s zero = zero
trimmed_length s (suc n) =
    let rest = trimmed_length s n in if is_space (get_or s n nul) then rest else suc n

unfoldable pub trim_end : Bytes → Bytes
unfolding trimmed_length
trim_end s = take (trimmed_length s (length s)) s

-- The position of the first `c`, or the length.
unfoldable pub index_of : ℕ → Bytes → ℕ
index_of c [] = 0
index_of c (x ∷ xs) = let rest = index_of c xs in if x == c then 0 else suc rest
