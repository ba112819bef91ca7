-- ===== src/Tests/Eee.antt =====
-- The EEE probe on a PHY with two registers: the EEE advertisement behind the MMD registers, and BMCR.
use rapi_bootloader.Base.{ℕ, ◌/◌, ◌%◌, ◌≡◌, refl, Bool, false, not, ◌&&◌, some, ◌==◌, if◌then◌else◌}
use rapi_bootloader.EeeProbe.{
  Bus, mii_mmd_ctrl, mii_mmd_data, mdio_start_busy, has_bit, eee_probe_disable,
}

record ToyPhy : Type 0 where
  pub command : ℕ
  pub data_function : Bool
  pub address : ℕ
  pub advertisement : ℕ
  pub bmcr : ℕ

abbrev toy_write : ToyPhy → ℕ → ℕ → ToyPhy
toy_write p reg v =
    if reg == mii_mmd_ctrl
    then record p { data_function = has_bit 14 v }
    else if reg == mii_mmd_data && not p.data_function
    then record p { address = v }
    else if reg == mii_mmd_data
    then record p { advertisement = v }
    else record p { bmcr = v }

abbrev toy_read : ToyPhy → ℕ → ToyPhy
toy_read p reg = record p { command = if reg == mii_mmd_data then p.advertisement else p.bmcr }

-- A command with the busy bit is done at once.
abbrev toy_command : ToyPhy → ℕ → ToyPhy
toy_command p v =
    if not (has_bit mdio_start_busy v)
    then record p { command = v }
    else if has_bit 27 v
    then toy_read p (v / 65536 % 32)
    else toy_write (record p { command = v % 65536 }) (v / 65536 % 32) (v % 65536)

abbrev toy_bus : Bus
toy_bus = record {
  World = ToyPhy;
  hz = 100;
  arm_bcm54213_base = 0xfd58_0000;
  read32 = λ p a. (p, p.command);
  write32 = λ p a v. toy_command p v;
  get_ticks = λ p. (p, 7);
}

abbrev advertising : ToyPhy
advertising = record {
  command = 0;
  data_function = false;
  address = 0;
  advertisement = 6;
  bmcr = 0x1140;
}

-- The advertisement is cleared, read back, and negotiated anew.
disabled :
    let (p, readback) = eee_probe_disable toy_bus 1 advertising in
    (p.advertisement ≡ 0) × (p.bmcr ≡ 0x1340) × (readback ≡ some 0)
unfolding eee_probe_disable
disabled = (refl, refl, refl)
