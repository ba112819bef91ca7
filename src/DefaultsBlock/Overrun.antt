-- ===== src/DefaultsBlock/Overrun.antt =====
-- Whether the stamped text stays inside the image.
use rapi_bootloader.Base.{
  ℕ, ◌+◌, ◌≤◌, ◌<◌, ◌≡◌, refl, sym, ◌∙◌, ◌≢◌, ◌⊎◌, inl, inr, arith, length, Bytes, nul,
}
use rapi_bootloader.Memory.{Memory}
use rapi_bootloader.DefaultsBlock.{
  defaults_block_offset, defaults_buffer_bytes, text_offset, patch_ok, block_at, block_capacity,
  stamp, patch_defaults,
}
use rapi_bootloader.DefaultsBlock.Patch.{
  Accepts, patch_defaults-Accepts, Accepts-patch_defaults, patch_defaults_refused, stamp_outside,
  is_ok_cases, stamp-nul,
}

module _ (m : Memory) (image image_size : ℕ) (text : Bytes) where
  in_image-stamp :
      (a : ℕ)
      → block_capacity m image ≤ defaults_buffer_bytes
      → Accepts m image image_size text
      → (a < image) ⊎ (image + image_size ≤ a)
      → stamp m image text a ≡ m a
  in_image-stamp a c h out = stamp_outside m image text a (ground (arith, h.room, h.fits))

  -- A block that declares at most the 512 bytes of the first ABI revision is never written past:
  -- no byte outside the image changes, whatever the result.
  pub patch_defaults_in_image :
      (a : ℕ)
      → block_capacity m image ≤ defaults_buffer_bytes
      → (a < image) ⊎ (image + image_size ≤ a)
      → (patch_defaults m image image_size text).0 a ≡ m a
  patch_defaults_in_image a c out = elim (is_ok_cases (patch_defaults m image image_size text).1) [
    | inl ok ↦
        let h = Accepts-patch_defaults m image image_size text ok in
        rw (patch_defaults-Accepts m image image_size text h) (in_image-stamp a c h out)
    | inr bad ↦ rw (patch_defaults_refused m image image_size text bad)
  ]

  -- A block may declare more than the image holds. When the string then reaches the end of the
  -- image and the byte where its NUL goes is not NUL already, PatchDefaults returns PatchOK and
  -- changes a byte past the image.
  pub patch_defaults_overrun :
      Accepts m image image_size text
      → image_size ≤ defaults_block_offset + text_offset + length text
      → m (block_at image + text_offset + length text) ≢ nul
      → ((patch_defaults m image image_size text).1 ≡ patch_ok)
        × ((a : ℕ) × (image + image_size ≤ a)
            × ((patch_defaults m image image_size text).0 a ≢ m a))
  patch_defaults_overrun h long old = rw (patch_defaults-Accepts m image image_size text h) (
    refl,
    (
      block_at image + text_offset + length text,
      omega arith,
      λ e. old (sym e ∙ stamp-nul m image text),
    ),
  )
