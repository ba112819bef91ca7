-- ===== src/Tests/Mdio.antt =====
-- The EEE probe on a PHY that keeps every register.
use rapi_bootloader.Base.{
  ℕ, ◌-◌, ◌/◌, ◌%◌, ◌<◌, ◌≡◌, refl, ap, true, false, not, ◌&&◌, some, arith, ltb, ◌==◌,
  if◌then◌else◌,
}
use rapi_bootloader.EeeProbe.{
  Bus, mii_mmd_ctrl, mii_mmd_data, mdio_start_busy, mdio_read_fail, has_bit, with_bit,
  eee_probe_disable,
}
use rapi_bootloader.EeeProbe.Disables.{Programs, eee_probe_disable-Programs}
use rapi_bootloader.EeeProbe.Mdio.{Finishes, done, MdioLaws, Answers, write_command, read_command}

record Phy : Type 0 where
  pub registers : ℕ → ℕ
  pub mmds : ℕ → ℕ → ℕ
  pub control : ℕ
  pub address : ℕ

record Mac : Type 0 where
  pub phy : Phy
  pub command : ℕ

abbrev read_reg : Phy → ℕ → ℕ
read_reg p reg =
    if reg == mii_mmd_data
    then p.mmds (p.control - 0x4000) p.address % 65536
    else p.registers reg % 65536

abbrev set_mmd : (ℕ → ℕ → ℕ) → ℕ → ℕ → ℕ → ℕ → ℕ → ℕ
set_mmd mmds dev_ad reg v d r = if d == dev_ad && r == reg then v else mmds d r

abbrev set_register : (ℕ → ℕ) → ℕ → ℕ → ℕ → ℕ
set_register registers reg v r = if r == reg then v else registers r

abbrev write_reg : Phy → ℕ → ℕ → Phy
write_reg p reg v =
    if reg == mii_mmd_ctrl
    then record p { control = v }
    else if not (reg == mii_mmd_data)
    then record p { registers = set_register p.registers reg v }
    else if ltb p.control 0x4000
    then record p { address = v }
    else record p { mmds = set_mmd p.mmds (p.control - 0x4000) p.address v }

-- A command with the busy bit is done at once.
abbrev command : Mac → ℕ → Mac
command m v =
    if not (has_bit mdio_start_busy v)
    then record m { command = v }
    else if has_bit 27 v
    then record m { command = read_reg m.phy (v / 65536 % 32) }
    else record { phy = write_reg m.phy (v / 65536 % 32) (v % 65536); command = v % 65536 }

abbrev mac : Bus
mac = record {
  World = Mac;
  hz = 100;
  arm_bcm54213_base = 0xfd58_0000;
  read32 = λ m a. (m, m.command);
  write32 = λ m a v. command m v;
  get_ticks = λ m. (m, 7);
}

command_prepares :
    (m : Mac) (v : ℕ) → has_bit mdio_start_busy v ≡ false → command m v ≡ record m { command = v }
command_prepares m v idle = rw idle refl

decoded_write :
    (m : Mac) (c reg v : ℕ)
    → has_bit mdio_start_busy c ≡ true
    → has_bit 27 c ≡ false
    → c / 65536 % 32 ≡ reg
    → c % 65536 ≡ v
    → command m c ≡ record { phy = write_reg m.phy reg v; command = v }
decoded_write m c reg v busy is_write register value = rw (busy, is_write, register, value) refl

decoded_read :
    (m : Mac) (c reg : ℕ)
    → has_bit mdio_start_busy c ≡ true
    → has_bit 27 c ≡ true
    → c / 65536 % 32 ≡ reg
    → command m c ≡ record m { command = read_reg m.phy reg }
decoded_read m c reg busy is_read register = rw (busy, is_read, register) refl

command_writes :
    (m : Mac) (reg v : ℕ)
    → reg < 32
    → command m (with_bit mdio_start_busy (write_command mac reg v))
      ≡ record { phy = write_reg m.phy reg (v % 65536); command = v % 65536 }
command_writes m reg v small =
    let c = with_bit mdio_start_busy (write_command mac reg v) in
    let busy : has_bit mdio_start_busy c ≡ true = ground arith in
    let is_write : has_bit 27 c ≡ false = ground arith in
    let register : c / 65536 % 32 ≡ reg = ground arith in
    let value : c % 65536 ≡ v % 65536 = ground arith in
    decoded_write m c reg (v % 65536) busy is_write register value

command_reads :
    (m : Mac) (reg : ℕ)
    → reg < 32
    → command m (with_bit mdio_start_busy (read_command mac reg))
      ≡ record m { command = read_reg m.phy reg }
command_reads m reg small =
    let c = with_bit mdio_start_busy (read_command mac reg) in
    let busy : has_bit mdio_start_busy c ≡ true = ground arith in
    let is_read : has_bit 27 c ≡ true = ground arith in
    let register : c / 65536 % 32 ≡ reg = ground arith in decoded_read m c reg busy is_read register

transaction_writes :
    (m : Mac) (reg v : ℕ)
    → reg < 32
    → let after = command m (with_bit mdio_start_busy (write_command mac reg v)) in
      (w' : Mac) × Finishes mac 7 after w' × (w'.phy ≡ write_reg m.phy reg (v % 65536))
transaction_writes m reg v small =
    let after = command m (with_bit mdio_start_busy (write_command mac reg v)) in
    let e = command_writes m reg v small in
    let kept = ap (λ (m : Mac). m.command) e in
    let free : has_bit mdio_start_busy after.command ≡ false = rw kept (ground arith) in
    (after, done after free, ap (λ (m : Mac). m.phy) e)

transaction_reads :
    (m : Mac) (reg : ℕ)
    → reg < 32
    → let after = command m (with_bit mdio_start_busy (read_command mac reg)) in
      (w' : Mac) × Finishes mac 7 after w'
      × (Answers mac w'.command (some (read_reg m.phy reg)) × (w'.phy ≡ m.phy))
transaction_reads m reg small =
    let after = command m (with_bit mdio_start_busy (read_command mac reg)) in
    let e = command_reads m reg small in
    let kept = ap (λ (m : Mac). m.command) e in
    let range : read_reg m.phy reg < 65536 = ground arith in
    let free : has_bit mdio_start_busy after.command ≡ false = rw kept (ground (arith, range)) in
    let good : has_bit mdio_read_fail after.command ≡ false = rw kept (ground (arith, range)) in
    let value : after.command % 65536 ≡ read_reg m.phy reg = rw kept (omega (arith, range)) in
    (after, done after free, ((good, value), ap (λ (m : Mac). m.phy) e))

abbrev mac-MdioLaws : MdioLaws mac
mac-MdioLaws = record {
  Phy = Phy;
  phy = λ m. m.phy;
  read_reg = λ p reg. (p, some (read_reg p reg));
  write_reg = write_reg;
  prepares = λ m v idle.
      let e = command_prepares m v idle in
      (ap (λ (m : Mac). m.command) e, ap (λ (m : Mac). m.phy) e);
  writes = λ m reg v small. transaction_writes m reg v small;
  reads = λ m reg small. transaction_reads m reg small;
}

abbrev advertising : Mac
advertising = record {
  phy = record { registers = λ r. 0x1140; mmds = λ d r. 6; control = 0; address = 0 };
  command = 0;
}

eee_probe_disable-Programs_example :
    (n : ℕ) × ((fuel : ℕ)
      → n < fuel
      → Programs mac mac-MdioLaws advertising (eee_probe_disable mac fuel advertising))
eee_probe_disable-Programs_example = eee_probe_disable-Programs mac mac-MdioLaws advertising
