-- ===== src/EeeProbe/Transactions.antt =====
-- Each transaction of the probe, and each access to an MMD register, runs to its end.
use rapi_bootloader.Base.{
  ℕ, ◌+◌, ◌%◌, ◌<◌, ◌≡◌, refl, ap, ◌∙◌, true, false, Option, none, some, arith, if◌then◌else◌,
}
use rapi_bootloader.EeeProbe.{
  Bus, mdio_start_busy, mdio_read_fail, mii_mmd_ctrl, mii_mmd_data, has_bit, with_bit,
  mdio_cmd_read, mdio_cmd_write, mdio_wait, mdio_command, mdio_read, mdio_write, mmd_select,
  mmd_read, mmd_write,
}
use rapi_bootloader.EeeProbe.Mdio.{
  Finishes, Runs, wait_loop-Runs, started, write_command, read_command, MdioLaws, Answers,
}

module _ (bus : Bus) (laws : MdioLaws bus) where
  open bus use {World}
  open laws use {Phy, phy, read_reg, write_reg}

  mdio_wait-Runs :
      (w w' : World)
      → Finishes bus (bus.get_ticks w).1 (bus.get_ticks w).0 w'
      → Runs bus (λ fuel. mdio_wait bus fuel w) (w', true)
  unfolding mdio_wait
  mdio_wait-Runs w w' h = wait_loop-Runs bus h

  -- A command that was read back as it was written.
  mdio_command-Runs :
      (w w' : World) (v : ℕ)
      → has_bit mdio_start_busy v ≡ false
      → (let kept = mdio_cmd_read bus (mdio_cmd_write bus w v) in
          let start = started bus kept.0 v in Finishes bus start.1 start.0 w')
      → Runs bus (λ fuel. mdio_command bus fuel w v) (w', true)
  unfolding mdio_command
  mdio_command-Runs w w' v idle h =
      let kept = mdio_cmd_read bus (mdio_cmd_write bus w v) in
      let read_back = (laws.prepares w v idle).0 in
      let (n, runs) =
        mdio_wait-Runs (mdio_cmd_write bus kept.0 (with_bit mdio_start_busy v)) w' h in
      (n, λ fuel less. rw read_back (runs fuel less))

  idle_write : (reg v : ℕ) → reg < 32 → has_bit mdio_start_busy (write_command bus reg v) ≡ false
  idle_write reg v small = ground arith

  idle_read : (reg : ℕ) → reg < 32 → has_bit mdio_start_busy (read_command bus reg) ≡ false
  idle_read reg small = ground arith

  pub mdio_write-Runs :
      (w : World) (reg v : ℕ)
      → reg < 32
      → (w' : World) × Runs bus (λ fuel. mdio_write bus fuel w reg v) (w', true)
        × (phy w' ≡ write_reg (phy w) reg (v % 65536))
  unfolding mdio_write
  mdio_write-Runs w reg v small =
      let command = write_command bus reg v in
      let kept = laws.prepares w command (idle_write reg v small) in
      let at = (mdio_cmd_read bus (mdio_cmd_write bus w command)).0 in
      let (w', finishes, effect) = laws.writes at reg v small in
      (
        w',
        mdio_command-Runs w w' command (idle_write reg v small) finishes,
        effect ∙ ap (λ p. write_reg p reg (v % 65536)) kept.1,
      )

  read_answer :
      (cmd : World × ℕ) (answer : Option ℕ)
      → Answers bus cmd.1 answer
      → ◌≡◌ {A = World × Option ℕ}
          (if has_bit mdio_read_fail cmd.1 then (cmd.0, none) else (cmd.0, some (cmd.1 % 65536)))
          (cmd.0, answer)
  read_answer cmd none h = rw h refl
  read_answer cmd (some v) h = rw (h.0, h.1) refl

  pub mdio_read-Runs :
      (w : World) (reg : ℕ)
      → reg < 32
      → let answer = read_reg (phy w) reg in
        (w' : World) × Runs bus (λ fuel. mdio_read bus fuel w reg) (w', answer.1)
        × (phy w' ≡ answer.0)
  unfolding mdio_read
  mdio_read-Runs w reg small =
      let command = read_command bus reg in
      let kept = laws.prepares w command (idle_read reg small) in
      let at = (mdio_cmd_read bus (mdio_cmd_write bus w command)).0 in
      let (w', finishes, (answers, effect)) = laws.reads at reg small in
      let (n, runs) = mdio_command-Runs w w' command (idle_read reg small) finishes in
      let cmd = mdio_cmd_read bus w' in
      let same : read_reg (phy at) reg ≡ read_reg (phy w) reg = ap (λ p. read_reg p reg) kept.1 in
      let value = ap (λ (r : Phy × Option ℕ). (cmd.0, r.1)) same in
      (
        cmd.0,
        (n, λ fuel less. rw (runs fuel less) (read_answer cmd _ answers ∙ value)),
        effect ∙ ap (λ (r : Phy × Option ℕ). r.0) same,
      )

  -- The PHY with its window turned to a register of an MMD.
  abbrev pub turned : Phy → ℕ → ℕ → Phy
  turned p dev_ad reg =
      write_reg (write_reg (write_reg p mii_mmd_ctrl dev_ad) mii_mmd_data reg) mii_mmd_ctrl
        (0x4000 + dev_ad)

  mmd_select-Runs :
      (w : World) (dev_ad reg : ℕ)
      → dev_ad < 32
      → reg < 65536
      → (w' : World) × Runs bus (λ fuel. mmd_select bus fuel w dev_ad reg) (w', true)
        × (phy w' ≡ turned (phy w) dev_ad reg)
  unfolding mmd_select
  mmd_select-Runs w dev_ad reg small_dev small_reg =
      let (a, (k, runs_a), e_a) = mdio_write-Runs w mii_mmd_ctrl dev_ad (omega arith) in
      let (b, (l, runs_b), e_b) = mdio_write-Runs a mii_mmd_data reg (omega arith) in
      let (c, (m, runs_c), e_c) = mdio_write-Runs b mii_mmd_ctrl (0x4000 + dev_ad) (omega arith) in
      let dev : dev_ad % 65536 ≡ dev_ad = omega (arith, small_dev) in
      let number : reg % 65536 ≡ reg = omega (arith, small_reg) in
      let function : (0x4000 + dev_ad) % 65536 ≡ 0x4000 + dev_ad = omega (arith, small_dev) in
      (
        c,
        (
          k + l + m,
          λ fuel less.
              rw
                (
                  runs_a fuel (omega (arith, less)),
                  runs_b fuel (omega (arith, less)),
                  runs_c fuel (omega (arith, less)),
                )
                refl,
        ),
        rw (e_c, e_b, e_a, dev, number, function) refl,
      )

  pub mmd_write-Runs :
      (w : World) (dev_ad reg v : ℕ)
      → dev_ad < 32
      → reg < 65536
      → (w' : World) × Runs bus (λ fuel. mmd_write bus fuel w dev_ad reg v) (w', true)
        × (phy w' ≡ write_reg (turned (phy w) dev_ad reg) mii_mmd_data (v % 65536))
  unfolding mmd_write
  mmd_write-Runs w dev_ad reg v small_dev small_reg =
      let (a, (k, runs_a), e_a) = mmd_select-Runs w dev_ad reg small_dev small_reg in
      let (b, (l, runs_b), e_b) = mdio_write-Runs a mii_mmd_data v (omega arith) in
      (
        b,
        (
          k + l,
          λ fuel less.
              rw (runs_a fuel (omega (arith, less)), runs_b fuel (omega (arith, less))) refl,
        ),
        rw (e_b, e_a) refl,
      )

  pub mmd_read-Runs :
      (w : World) (dev_ad reg : ℕ)
      → dev_ad < 32
      → reg < 65536
      → let answer = read_reg (turned (phy w) dev_ad reg) mii_mmd_data in
        (w' : World) × Runs bus (λ fuel. mmd_read bus fuel w dev_ad reg) (w', answer.1)
        × (phy w' ≡ answer.0)
  unfolding mmd_read
  mmd_read-Runs w dev_ad reg small_dev small_reg =
      let (a, (k, runs_a), e_a) = mmd_select-Runs w dev_ad reg small_dev small_reg in
      let (b, (l, runs_b), e_b) = mdio_read-Runs a mii_mmd_data (omega arith) in
      let same : read_reg (phy a) mii_mmd_data ≡ read_reg (turned (phy w) dev_ad reg) mii_mmd_data =
        ap (λ p. read_reg p mii_mmd_data) e_a in
      (
        b,
        (
          k + l,
          λ fuel less.
              rw (runs_a fuel (omega (arith, less)))
                (runs_b fuel (omega (arith, less)) ∙ ap (λ (r : Phy × Option ℕ). (b, r.1)) same),
        ),
        e_b ∙ ap (λ (r : Phy × Option ℕ). r.0) same,
      )
