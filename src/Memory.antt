-- ===== src/Memory.antt =====
-- Byte-addressed memory as the loaders use it: memcpy, little-endian 16-bit fields, C strings in a
-- buffer. A pointer is a number, and 0 is the null pointer.
pub mod Laws
use rapi_bootloader.Base.{
  ℕ, zero, suc, ◌+◌, ◌-◌, ◌*◌, ◌/◌, ◌%◌, ◌<◌, ◌&&◌, [], ◌∷◌, ltb, leb, ◌==◌, if◌then◌else◌, length,
  get_or, Bytes, nul,
}

abbrev pub Memory : Type 0
Memory = ℕ → ℕ

abbrev pub AllBytes : Memory → Type 0
AllBytes m = (a : ℕ) → m a < 256

-- `memcpy (address, bytes, length)`
unfoldable pub write : Memory → ℕ → Bytes → Memory
write m at bs a = if leb at a && ltb a (at + length bs) then get_or bs (a - at) 0 else m a

-- The `n` bytes at an address.
unfoldable pub read : Memory → ℕ → ℕ → Bytes
read m at zero = []
read m at (suc n) = m at ∷ read m (at + 1) n

-- The C string in a buffer of `n` bytes.
unfoldable pub c_string : Memory → ℕ → ℕ → Bytes
c_string m at zero = []
c_string m at (suc n) = let rest = c_string m (at + 1) n in if m at == nul then [] else m at ∷ rest

-- A little-endian 16-bit field.
unfoldable pub read_u16 : Memory → ℕ → ℕ
read_u16 m at = m at + 256 * m (at + 1)

abbrev pub u16_bytes : ℕ → Bytes
u16_bytes v = v % 256 ∷ v / 256 % 256 ∷ []

unfoldable pub write_u16 : Memory → ℕ → ℕ → Memory
unfolding write
write_u16 m at v = write m at (u16_bytes v)
