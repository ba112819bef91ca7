-- ===== src/DefaultsBlock/Patch.antt =====
-- What `PatchDefaults` writes, against a reader of the block as defaultsblock.h lays it out.
use rapi_bootloader.Base.{
  ℕ, ◌+◌, ◌%◌, ◌≤◌, ◌<◌, ◌≡◌, refl, ap, ◌∙◌, ◌≢◌, ◌↔◌, ◌⊎◌, inl, inr, [], ◌∷◌, arith, length, Bytes,
  nul, equal_iff,
}
use rapi_bootloader.Memory.{Memory, AllBytes, write, read, read_u16, u16_bytes, write_u16}
use rapi_bootloader.Memory.Laws.{
  write_outside, read_same, read-write_self, read-write_apart, read_u16-write_u16,
}
use rapi_bootloader.DefaultsBlock.{
  defaults_block_offset, defaults_magic, sizeof_block, text_offset, length_offset, capacity_offset,
  PatchResult, patch_ok, block_at, block_magic, block_capacity, stamp, patch_defaults,
}

-- The consuming kernel's view: `Length` bytes of `Text`.
abbrev pub block_length : Memory → ℕ → ℕ
block_length m image = read_u16 m (block_at image + length_offset)

abbrev pub block_text : Memory → ℕ → Bytes
block_text m image = read m (block_at image + text_offset) (block_length m image)

pub is_ok_cases : (r : PatchResult) → (r ≡ patch_ok) ⊎ (r ≢ patch_ok)
is_ok_cases patch_ok = inl refl
is_ok_cases _ = inr (λ e. cc)

-- When a string may be stamped.
pub record Accepts (m : Memory) (image image_size : ℕ) (text : Bytes) : Type 0 where
  pub room : defaults_block_offset + sizeof_block ≤ image_size
  pub magic : block_magic m image ≡ defaults_magic
  pub fits : length text < block_capacity m image

module _ (m : Memory) (image image_size : ℕ) (text : Bytes) where
  pub patch_defaults-Accepts :
      Accepts m image image_size text
      → patch_defaults m image image_size text ≡ (stamp m image text, patch_ok)
  unfolding patch_defaults
  patch_defaults-Accepts h = ground (arith, equal_iff (block_magic m image) defaults_magic)

  pub Accepts-patch_defaults :
      (patch_defaults m image image_size text).1 ≡ patch_ok → Accepts m image image_size text
  unfolding patch_defaults
  Accepts-patch_defaults h = ground (arith, equal_iff (block_magic m image) defaults_magic)

  -- A refused write changes no byte of memory.
  pub patch_defaults_refused :
      (patch_defaults m image image_size text).1 ≢ patch_ok
      → (patch_defaults m image image_size text).0 ≡ m
  unfolding patch_defaults
  patch_defaults_refused h = ground arith

module _ (m : Memory) (image : ℕ) (text : Bytes) where
  -- The two writes that precede the length field.
  abbrev with_text : Memory
  with_text =
      write (write m (block_at image + text_offset) text)
        (block_at image + text_offset + length text) (nul ∷ [])

  -- Outside `Length`, `Text` and its NUL nothing changes.
  pub stamp_outside :
      (a : ℕ)
      → (a < block_at image + length_offset) ⊎ (block_at image + text_offset + length text < a)
      → stamp m image text a ≡ m a
  unfolding write_u16
  stamp_outside a h =
      write_outside with_text _ (u16_bytes (length text % 65536)) a (ground arith)
      ∙ write_outside (write m (block_at image + text_offset) text) _ (nul ∷ []) a (ground arith)
      ∙ write_outside m _ text a (ground arith)

  pub block_length-stamp :
      length text < 65536 → block_length (stamp m image text) image ≡ length text
  block_length-stamp h = read_u16-write_u16 with_text _ _ (omega arith) ∙ (omega arith)

  pub read-stamp : read (stamp m image text) (block_at image + text_offset) (length text) ≡ text
  unfolding write_u16
  read-stamp =
      read-write_apart with_text _ (u16_bytes (length text % 65536)) _ (length text)
        (inr (omega arith))
      ∙ read-write_apart (write m (block_at image + text_offset) text) _ (nul ∷ []) _ (length text)
          (inl (omega arith))
      ∙ read-write_self m (block_at image + text_offset) text

  pub stamp-nul : stamp m image text (block_at image + text_offset + length text) ≡ nul
  unfolding write_u16 write
  stamp-nul = ground arith

  pub block_magic-stamp : block_magic (stamp m image text) image ≡ block_magic m image
  block_magic-stamp =
      read_same _ m (block_at image) 4 (λ a lo hi. stamp_outside a (inl (omega arith)))

  pub block_capacity-stamp : block_capacity (stamp m image text) image ≡ block_capacity m image
  unfolding read_u16
  block_capacity-stamp =
      let p = stamp_outside (block_at image + capacity_offset) (inl (omega arith)) in
      let q = stamp_outside (block_at image + capacity_offset + 1) (inl (omega arith)) in rw (p, q)

block_capacity-lt : (m : Memory) (image : ℕ) → AllBytes m → block_capacity m image < 65536
unfolding read_u16
block_capacity-lt m image h =
    omega (arith, h (block_at image + capacity_offset), h (block_at image + capacity_offset + 1))

-- What a reader finds in a block: its magic, capacity and text, and the NUL behind the text.
pub record Holds (m m' : Memory) (image : ℕ) (text : Bytes) : Type 0 where
  pub holds_text : block_text m' image ≡ text
  pub holds_nul : m' (block_at image + text_offset + length text) ≡ nul
  pub keeps_magic : block_magic m' image ≡ defaults_magic
  pub keeps_capacity : block_capacity m' image ≡ block_capacity m image
  pub keeps_rest :
      (a : ℕ)
      → (a < block_at image + length_offset) ⊎ (block_at image + text_offset + length text < a)
      → m' a ≡ m a

module _ (m : Memory) (image image_size : ℕ) (text : Bytes) where
  Holds-stamp :
      AllBytes m → Accepts m image image_size text → Holds m (stamp m image text) image text
  Holds-stamp bytes h =
      let small : length text < 65536 = omega (arith, h.fits, block_capacity-lt m image bytes) in
      record {
        holds_text = rw (block_length-stamp m image text small) (read-stamp m image text);
        holds_nul = stamp-nul m image text;
        keeps_magic = block_magic-stamp m image text ∙ h.magic;
        keeps_capacity = block_capacity-stamp m image text;
        keeps_rest = stamp_outside m image text;
      }

  -- When `PatchDefaults` returns PatchOK on a memory of bytes, a reader of the block finds exactly
  -- the string, a NUL behind it, the magic and the old capacity, and no byte outside the length
  -- field, the text and its NUL has changed.
  pub patch_defaults-Holds :
      AllBytes m
      → (patch_defaults m image image_size text).1 ≡ patch_ok
      → Holds m (patch_defaults m image image_size text).0 image text
  patch_defaults-Holds bytes ok =
      let h = Accepts-patch_defaults m image image_size text ok in
      rw (patch_defaults-Accepts m image image_size text h) (Holds-stamp bytes h)

  -- `PatchDefaults` returns PatchOK exactly when the image has room for the block, the magic stands
  -- at 0x800 and the string with its NUL fits the declared capacity, and on any other result no
  -- byte of memory changes.
  pub patch_defaults-ok_iff :
      (((patch_defaults m image image_size text).1 ≡ patch_ok) ↔ Accepts m image image_size text)
      × ((patch_defaults m image image_size text).1 ≢ patch_ok
          → (patch_defaults m image image_size text).0 ≡ m)
  patch_defaults-ok_iff = (
    (
      Accepts-patch_defaults m image image_size text,
      λ h. ap (λ r. r.1) (patch_defaults-Accepts m image image_size text h),
    ),
    patch_defaults_refused m image image_size text,
  )
