-- ===== src/BootImage.antt =====
-- defaultsblock/bootimage.cpp: boot a staged image, with defaults where it takes them.
pub mod Laws
use rapi_bootloader.Base.{ℕ, Option, none, some, [], ◌∷◌, Bytes, codes}
use rapi_bootloader.Circle.{Machine, ChainLoader}
use rapi_bootloader.DefaultsBlock.{
  PatchResult, patch_ok, patch_image_too_small, patch_no_magic, patch_too_long, patch_defaults,
}

pub data BootMessage : Type 0 where
  booting stamped too_long no_defaults : BootMessage

-- The text that is returned for a screen or a page.
pub boot_message_text : BootMessage → Bytes
boot_message_text booting = codes "booting"
boot_message_text stamped = codes "defaults stamped, booting"
boot_message_text too_long = codes "defaults too long for this image, booting unpatched"
boot_message_text no_defaults = codes "image takes no defaults, booting unpatched"

unfoldable pub patch_message : PatchResult → BootMessage
patch_message patch_ok = stamped
patch_message patch_too_long = too_long
patch_message _ = no_defaults

module _ {Heap : Type 0} (cl : ChainLoader Heap) where
  open cl use {Boot, enable_chain_boot}

  -- The stamping alone, when `pDefaults != 0 && *pDefaults != '\0'`: the machine afterwards, and the
  -- message.
  unfoldable pub stamp_defaults :
      Machine Heap Boot → ℕ → ℕ → Option Bytes → Machine Heap Boot × BootMessage
  unfolding patch_message
  stamp_defaults m image image_size none = (m, booting)
  stamp_defaults m image image_size (some []) = (m, booting)
  stamp_defaults m image image_size (some (b ∷ bs)) =
      let patched = patch_defaults m.memory image image_size (b ∷ bs) in
      (record m { memory = patched.0 }, patch_message patched.1)

  unfoldable pub boot_image_with_defaults :
      Machine Heap Boot → ℕ → ℕ → Option Bytes → Machine Heap Boot × BootMessage
  boot_image_with_defaults m image image_size defaults =
      let stamped_image = stamp_defaults m image image_size defaults in
      (enable_chain_boot stamped_image.0 image image_size, stamped_image.1)
