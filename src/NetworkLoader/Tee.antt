-- ===== src/NetworkLoader/Tee.antt =====
-- network-loader/teedevice.h: a device that writes to two.
use rapi_bootloader.Base.{ℕ, Option, none, some, length, Bytes}

-- The `Write` of a Circle device: the world after it, and its result.
abbrev pub Write : Type 0 → Type 0 → Type 0
Write World Result = World → Bytes → World × Result

module _ {World Result : Type 0} (of_count : ℕ → Result) where
  unfoldable pub tee_secondary : Option (Write World Result) → World → Bytes → World
  tee_secondary none w bytes = w
  tee_secondary (some write) w bytes = (write w bytes).0

  -- `CTeeDevice::Write`, where null is `none`.
  unfoldable pub tee_write :
      Option (Write World Result) → Option (Write World Result) → Write World Result
  unfolding tee_secondary
  tee_write none secondary w bytes = (tee_secondary secondary w bytes, of_count (length bytes))
  tee_write (some write) secondary w bytes = write (tee_secondary secondary w bytes) bytes
