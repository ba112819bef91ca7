-- ===== src/BootImage/Laws.antt =====
-- The boot of an image with defaults: what is armed, and what the message says.
use rapi_bootloader.Base.{ℕ, ◌≡◌, refl, ◌≢◌, ◌↔◌, Option, some, [], ◌∷◌, arith, Bytes}
use rapi_bootloader.Circle.{Machine, ChainLoader}
use rapi_bootloader.Memory.{AllBytes}
use rapi_bootloader.DefaultsBlock.{PatchResult, patch_ok, patch_defaults}
use rapi_bootloader.DefaultsBlock.Patch.{
  Accepts, Holds, patch_defaults-Holds, patch_defaults-ok_iff,
}
use rapi_bootloader.BootImage.{stamped, patch_message, stamp_defaults, boot_image_with_defaults}

stamped_iff : (r : PatchResult) → (patch_message r ≡ stamped) ↔ (r ≡ patch_ok)
unfolding patch_message
stamped_iff patch_ok = ground arith
stamped_iff _ = ground arith

module _ {Heap : Type 0} (cl : ChainLoader Heap) (m : Machine Heap cl.Boot)
    (image image_size : ℕ) where
  open cl use {Boot, enable_chain_boot, armed, armed-enable_chain_boot}

  -- Whatever the defaults are and whatever the image holds, an image that is not at the null pointer
  -- is armed with its full size:
  -- no defaults-string makes a boot fail.
  pub boot_image_armed :
      (defaults : Option Bytes)
      → image ≢ 0
      → armed (boot_image_with_defaults cl m image image_size defaults).0.boot
        ≡ some (image, image_size)
  unfolding boot_image_with_defaults
  boot_image_armed defaults real = armed-enable_chain_boot _ image image_size real

  stamp_defaults-Holds :
      (text : Bytes)
      → AllBytes m.memory
      → text ≢ []
      → (((stamp_defaults cl m image image_size (some text)).1 ≡ stamped)
          ↔ Accepts m.memory image image_size text)
        × ((stamp_defaults cl m image image_size (some text)).1 ≡ stamped
            → Holds m.memory (stamp_defaults cl m image image_size (some text)).0.memory image text)
        × ((stamp_defaults cl m image image_size (some text)).1 ≢ stamped
            → (stamp_defaults cl m image image_size (some text)).0.memory ≡ m.memory)
  unfolding stamp_defaults
  stamp_defaults-Holds [] bytes ne = absurd (ne refl)
  stamp_defaults-Holds (b ∷ bs) bytes ne =
      let result = (patch_defaults m.memory image image_size (b ∷ bs)).1 in
      let accepted = patch_defaults-ok_iff m.memory image image_size (b ∷ bs) in
      let means = stamped_iff result in
      (
        ((λ e. accepted.0.0 (means.0 e)), (λ h. means.1 (accepted.0.1 h))),
        (λ e. patch_defaults-Holds m.memory image image_size (b ∷ bs) bytes (means.0 e)),
        (λ n. accepted.1 (λ e. n (means.1 e))),
      )

  -- With a non-empty string, on a memory of bytes, there is a machine m' that is handed to
  -- EnableChainBoot with the image and its size. The message says that the defaults were stamped
  -- exactly when the image accepts the string; then m' holds the string in the image's block and
  -- is otherwise unchanged; on any other message the memory of m' is the memory as it was.
  pub boot_image-Holds :
      (text : Bytes)
      → AllBytes m.memory
      → text ≢ []
      → let message = (boot_image_with_defaults cl m image image_size (some text)).1 in
        (m' : Machine Heap Boot) × ((boot_image_with_defaults cl m image image_size (some text)).0
          ≡ enable_chain_boot m' image image_size)
        × ((message ≡ stamped) ↔ Accepts m.memory image image_size text)
        × (message ≡ stamped → Holds m.memory m'.memory image text)
        × (message ≢ stamped → m'.memory ≡ m.memory)
  unfolding boot_image_with_defaults
  boot_image-Holds text bytes ne =
      let h = stamp_defaults-Holds text bytes ne in
      ((stamp_defaults cl m image image_size (some text)).0, refl, h.0, h.1, h.2)
