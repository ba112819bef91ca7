-- ===== src/DefaultsBlock.antt =====
-- defaultsblock/defaultsblock.h and defaultsblock.cpp: the 0x800 defaults block and its writer.
-- An image lies in memory at `image`; the block's fields are read at their packed offsets.
pub mod Patch
pub mod Overrun
use rapi_bootloader.Base.{
  ℕ, ◌+◌, ◌-◌, ◌%◌, not, [], ◌∷◌, ltb, if◌then◌else◌, length, Bytes, codes, nul, equal,
}
use rapi_bootloader.Memory.{Memory, write, read, read_u16, write_u16}

abbrev pub defaults_block_offset : ℕ
defaults_block_offset = 0x800

-- 'P', 'M', '8', 'D'
abbrev pub defaults_magic : Bytes
defaults_magic = b'P' ∷ b'M' ∷ b'8' ∷ b'D' ∷ []

abbrev pub defaults_buffer_bytes : ℕ
defaults_buffer_bytes = 512

-- The packed layout of `TDefaultsBlock`: offsets of the fields, and its size.
abbrev pub capacity_offset : ℕ
capacity_offset = 4

abbrev pub length_offset : ℕ
length_offset = 6

abbrev pub text_offset : ℕ
text_offset = 8

abbrev pub sizeof_block : ℕ
sizeof_block = text_offset + defaults_buffer_bytes

pub data PatchResult : Type 0 where
  patch_ok patch_image_too_small patch_no_magic patch_too_long : PatchResult

abbrev pub block_at : ℕ → ℕ
block_at image = image + defaults_block_offset

abbrev pub block_magic : Memory → ℕ → Bytes
block_magic m image = read m (block_at image) 4

abbrev pub block_capacity : Memory → ℕ → ℕ
block_capacity m image = read_u16 m (block_at image + capacity_offset)

-- The memcpy of the string, its NUL, and the `u16` length field.
abbrev pub stamp : Memory → ℕ → Bytes → Memory
stamp m image text =
    write_u16
      (write (write m (block_at image + text_offset) text)
        (block_at image + text_offset + length text) (nul ∷ []))
      (block_at image + length_offset) (length text % 65536)

unfoldable pub patch_defaults : Memory → ℕ → ℕ → Bytes → Memory × PatchResult
patch_defaults m image image_size text =
    if ltb image_size (defaults_block_offset + sizeof_block)
    then (m, patch_image_too_small)
    else if not (equal (block_magic m image) defaults_magic)
    then (m, patch_no_magic)
    else if ltb (block_capacity m image) (length text + 1)
    then (m, patch_too_long)
    else (stamp m image text, patch_ok)

pub patch_result_string : PatchResult → Bytes
patch_result_string patch_ok = codes "ok"
patch_result_string patch_image_too_small = codes "platform image too small to hold defaults block"
patch_result_string patch_no_magic = codes "defaults magic absent at 0x800 - refusing to patch"
patch_result_string patch_too_long = codes "defaults string exceeds block capacity"
