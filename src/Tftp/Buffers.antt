-- ===== src/Tftp/Buffers.antt =====
-- network-loader/tftpbootserver.cpp: names on the wire, the running hash, the trimmed injection.
use Prim.Native.Nat.{bit_xor}
use rapi_bootloader.Base.{
  ℕ, zero, suc, ◌-◌, ◌*◌, ◌%◌, ◌^◌, ◌≤◌, ◌≡◌, refl, Bool, not, ◌||◌, Option, none, some, [], ◌∷◌,
  ◌++◌, arith, ltb, ◌==◌, if◌then◌else◌, length, drop, Bytes, codes, equal, starts_with,
}
use rapi_bootloader.Memory.{Memory}
use rapi_bootloader.Tftp.{fnv_prime}

-- `MapSDPath`: "sd/<path>" with a non-empty path becomes "SD:/<path>".
unfoldable pub map_sd_path : Bytes → Option Bytes
map_sd_path name =
    if not (starts_with (codes "sd/") name) || ltb (length name) 4
    then none
    else some (codes "SD:/" ++ drop 3 name)

-- `strcmp (&text[strlen (text) - strlen (suffix)], suffix) == 0`, on a text at least as long
unfoldable pub ends_with : Bytes → Bytes → Bool
ends_with suffix text = equal (drop (length text - length suffix) text) suffix

-- One byte of FNV-1a in 32 bits.
unfoldable pub fnv_step : ℕ → ℕ → ℕ
fnv_step hash byte = bit_xor hash byte * fnv_prime % 2 ^ 32

-- The loop over a block.
unfoldable pub fnv1a : ℕ → Bytes → ℕ
unfolding fnv_step
fnv1a hash [] = hash
fnv1a hash (b ∷ bs) = fnv1a (fnv_step hash b) bs

-- The loop that drops trailing newlines: the length that is left.
unfoldable pub trim_newlines : Memory → ℕ → ℕ
trim_newlines text zero = zero
trim_newlines text (suc n) =
    let rest = trim_newlines text n in if text n == b'\n' || text n == b'\r' then rest else suc n

pub fnv1a-append : (hash : ℕ) (a b : Bytes) → fnv1a hash (a ++ b) ≡ fnv1a (fnv1a hash a) b
unfolding fnv1a
fnv1a-append hash [] b = refl
fnv1a-append hash (x ∷ a) b = fnv1a-append (fnv_step hash x) a b

pub trim_newlines-le : (text : Memory) (n : ℕ) → trim_newlines text n ≤ n
unfolding trim_newlines
trim_newlines-le text zero = omega arith
trim_newlines-le text (suc n) = ground (arith, trim_newlines-le text n)
