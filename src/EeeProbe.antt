-- ===== src/EeeProbe.antt =====
-- network-loader/eeeprobe.h and .cpp: the registers of the Pi 4's PHY over MDIO. The registers of the MAC
-- and the clock are parameters.
pub mod Waits
pub mod Mdio
pub mod Transactions
pub mod Disables
use rapi_bootloader.Base.{
  ℕ, zero, suc, ◌+◌, ◌-◌, ◌*◌, ◌/◌, ◌%◌, ◌^◌, Bool, true, false, not, Option, none, some, ltb, ◌==◌,
  if◌then◌else◌,
}

-- `read32`, `write32` and the timer; reading a register or the clock can change the world.
pub record Bus : Type 1 where
  pub World : Type 0
  pub hz : ℕ
  pub arm_bcm54213_base : ℕ
  pub read32 : World → ℕ → World × ℕ
  pub write32 : World → ℕ → ℕ → World
  pub get_ticks : World → World × ℕ

abbrev pub umac_mdio_cmd : ℕ
umac_mdio_cmd = 0x800 + 0x614

abbrev pub umac_eee_ctrl : ℕ
umac_eee_ctrl = 0x800 + 0x064

abbrev pub mdio_start_busy : ℕ
mdio_start_busy = 29

abbrev pub mdio_read_fail : ℕ
mdio_read_fail = 28

abbrev pub mdio_rd : ℕ
mdio_rd = 2 * 2 ^ 26

abbrev pub mdio_wr : ℕ
mdio_wr = 2 ^ 26

abbrev pub phy_addr : ℕ
phy_addr = 1

abbrev pub mii_bmcr : ℕ
mii_bmcr = 0

abbrev pub mii_bmsr : ℕ
mii_bmsr = 1

abbrev pub mii_lpa : ℕ
mii_lpa = 5

abbrev pub mii_stat1000 : ℕ
mii_stat1000 = 0x0a

abbrev pub mii_mmd_ctrl : ℕ
mii_mmd_ctrl = 0x0d

abbrev pub mii_mmd_data : ℕ
mii_mmd_data = 0x0e

abbrev pub bmcr_anrestart : ℕ
bmcr_anrestart = 9

abbrev pub mmd_an : ℕ
mmd_an = 7

abbrev pub mmd_an_eee_adv : ℕ
mmd_an_eee_adv = 0x3c

abbrev pub mmd_an_eee_lpable : ℕ
mmd_an_eee_lpable = 0x3d

abbrev pub has_bit : ℕ → ℕ → Bool
has_bit n v = v / 2 ^ n % 2 == 1

-- `v | (1 << n)`
abbrev pub with_bit : ℕ → ℕ → ℕ
with_bit n v = if has_bit n v then v else v + 2 ^ n

-- `TEEEState`, with `none` for -1.
pub record EeeState : Type 0 where
  pub bmsr : Option ℕ
  pub lpa : Option ℕ
  pub stat1000 : Option ℕ
  pub eee_adv : Option ℕ
  pub eee_lp_ability : Option ℕ
  pub umac_eee_ctrl_value : ℕ

module _ (bus : Bus) where
  open bus use {World, hz, arm_bcm54213_base, read32, write32, get_ticks}

  abbrev pub mdio_cmd_read : World → World × ℕ
  mdio_cmd_read w = read32 w (arm_bcm54213_base + umac_mdio_cmd)

  abbrev pub mdio_cmd_write : World → ℕ → World
  mdio_cmd_write w v = write32 w (arm_bcm54213_base + umac_mdio_cmd) v

  -- The ticks since a start, on 32 bits.
  abbrev pub since : ℕ → ℕ → ℕ
  since start now = (now % 2 ^ 32 + (2 ^ 32 - start % 2 ^ 32)) % 2 ^ 32

  -- The loop of `mdio_wait` on fuel, with whether the controller was free in time.
  unfoldable pub wait_loop : ℕ → ℕ → World → World × Bool
  wait_loop zero start w = (w, false)
  wait_loop (suc fuel) start w =
      let cmd = mdio_cmd_read w in
      let now = get_ticks cmd.0 in
      let rest = wait_loop fuel start now.0 in
      if not (has_bit mdio_start_busy cmd.1)
      then (cmd.0, true)
      else if ltb hz (since start now.1)
      then (now.0, false)
      else rest

  module _ (fuel : ℕ) where
    unfoldable pub mdio_wait : World → World × Bool
    unfolding wait_loop
    mdio_wait w = let now = get_ticks w in wait_loop fuel now.1 now.0

    -- A command without and then with the busy bit, and the wait.
    unfoldable pub mdio_command : World → ℕ → World × Bool
    unfolding mdio_wait
    mdio_command w v =
        let cmd = mdio_cmd_read (mdio_cmd_write w v) in
        mdio_wait (mdio_cmd_write cmd.0 (with_bit mdio_start_busy cmd.1))

    unfoldable pub mdio_read : World → ℕ → World × Option ℕ
    unfolding mdio_command
    mdio_read w reg =
        let waited = mdio_command w (mdio_rd + phy_addr * 2 ^ 21 + reg * 2 ^ 16) in
        let cmd = mdio_cmd_read waited.0 in
        if not waited.1
        then (waited.0, none)
        else if has_bit mdio_read_fail cmd.1
        then (cmd.0, none)
        else (cmd.0, some (cmd.1 % 65536))

    unfoldable pub mdio_write : World → ℕ → ℕ → World × Bool
    unfolding mdio_command
    mdio_write w reg v = mdio_command w (mdio_wr + phy_addr * 2 ^ 21 + reg * 2 ^ 16 + v % 65536)

    -- The three writes that select a register of an MMD; a failure ends them.
    unfoldable pub mmd_select : World → ℕ → ℕ → World × Bool
    unfolding mdio_write
    mmd_select w dev_ad reg =
        let address = mdio_write w mii_mmd_ctrl dev_ad in
        let number = mdio_write address.0 mii_mmd_data reg in
        let data_function = mdio_write number.0 mii_mmd_ctrl (0x4000 + dev_ad) in
        if not address.1 then address else if not number.1 then number else data_function

    unfoldable pub mmd_read : World → ℕ → ℕ → World × Option ℕ
    unfolding mmd_select mdio_read
    mmd_read w dev_ad reg =
        let selected = mmd_select w dev_ad reg in
        let value = mdio_read selected.0 mii_mmd_data in
        if selected.1 then value else (selected.0, none)

    unfoldable pub mmd_write : World → ℕ → ℕ → ℕ → World × Bool
    unfolding mmd_select mdio_write
    mmd_write w dev_ad reg v =
        let selected = mmd_select w dev_ad reg in
        let written = mdio_write selected.0 mii_mmd_data v in
        if selected.1 then written else selected

    -- `EEEProbeRead`
    unfoldable pub eee_probe_read : World → World × EeeState
    unfolding mmd_read
    eee_probe_read w =
        let bmsr = mdio_read w mii_bmsr in
        let lpa = mdio_read bmsr.0 mii_lpa in
        let stat1000 = mdio_read lpa.0 mii_stat1000 in
        let adv = mmd_read stat1000.0 mmd_an mmd_an_eee_adv in
        let lp_ability = mmd_read adv.0 mmd_an mmd_an_eee_lpable in
        let ctrl = read32 lp_ability.0 (arm_bcm54213_base + umac_eee_ctrl) in
        (
          ctrl.0,
          record {
            bmsr = bmsr.1;
            lpa = lpa.1;
            stat1000 = stat1000.1;
            eee_adv = adv.1;
            eee_lp_ability = lp_ability.1;
            umac_eee_ctrl_value = ctrl.1;
          },
        )

    unfoldable pub restart : World → Option ℕ → World
    unfolding mdio_write
    restart w none = w
    restart w (some bmcr) = (mdio_write w mii_bmcr (with_bit bmcr_anrestart bmcr)).0

    -- `EEEProbeDisable`
    unfoldable pub eee_probe_disable : World → World × Option ℕ
    unfolding mmd_write mmd_read restart
    eee_probe_disable w =
        let cleared = mmd_write w mmd_an mmd_an_eee_adv 0 in
        let readback = mmd_read cleared.0 mmd_an mmd_an_eee_adv in
        let bmcr = mdio_read readback.0 mii_bmcr in (restart bmcr.0 bmcr.1, readback.1)
