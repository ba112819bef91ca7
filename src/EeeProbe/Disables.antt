-- ===== src/EeeProbe/Disables.antt =====
-- What EEEProbeDisable does to the registers of the PHY.
use rapi_bootloader.Base.{
  ℕ, ◌+◌, ◌%◌, ◌<◌, ◌≡◌, refl, sym, ap, ◌∙◌, subst, Bool, Option, none, some, arith,
}
use rapi_bootloader.EeeProbe.{
  Bus, mmd_an, mmd_an_eee_adv, mii_bmcr, bmcr_anrestart, with_bit, restart, eee_probe_disable,
}
use rapi_bootloader.EeeProbe.Mdio.{MdioLaws}
use rapi_bootloader.EeeProbe.Transactions.{
  mdio_write-Runs, mdio_read-Runs, mmd_write-Runs, mmd_read-Runs,
}

module _ (bus : Bus) (laws : MdioLaws bus) where
  open bus use {World}
  open laws use {Phy, phy, read_reg, write_reg}

  -- The window of registers 13 and 14 on the register 0x3C of MMD 7, the EEE advertisement.
  abbrev window : Phy → Phy
  window p = write_reg (write_reg (write_reg p 13 7) 14 0x3c) 13 0x4007

  -- The readback, after 0 was written through the window.
  abbrev pub readback : Phy → Phy × Option ℕ
  readback p = read_reg (window (write_reg (window p) 14 0)) 14

  -- The control register, read after that, is written back with bit 9, if the PHY answered.
  abbrev pub restarted : Phy × Option ℕ → Phy
  restarted (p, none) = p
  restarted (p, some control) = write_reg p 0 (with_bit 9 control % 65536)

  abbrev pub renegotiated : Phy → Phy
  renegotiated p = restarted (read_reg (readback p).0 0)

  pub record Programs (w : World) (result : World × Option ℕ) : Type 0 where
    pub returns : result.1 ≡ (readback (phy w)).1
    pub leaves : phy result.0 ≡ renegotiated (phy w)

  restart-Runs :
      (w : World) (control : Option ℕ)
      → (w' : World) × ((n : ℕ) × ((fuel : ℕ) → n < fuel → restart bus fuel w control ≡ w'))
        × (phy w' ≡ restarted (phy w, control))
  unfolding restart
  restart-Runs w none = (w, (0, λ fuel less. refl), refl)
  restart-Runs w (some control) =
      let (w', (n, runs), effect) =
        mdio_write-Runs bus laws w mii_bmcr (with_bit bmcr_anrestart control) (omega arith) in
      (w', (n, λ fuel less. ap (λ (r : World × Bool). r.0) (runs fuel less)), effect)

  -- With an MDIO controller that behaves as documented, on any PHY, and with enough fuel for the waits:
  -- EEEProbeDisable writes 0 to the EEE advertisement through the window of registers 13 and 14,
  -- returns what a read through the window then answers, or -1 for none, and as its last write sets
  -- the restart bit in the control register; this is left alone if the PHY does not answer its read.
  -- No other register is written, and none in another order.
  pub eee_probe_disable-Programs :
      (w : World) → (n : ℕ) × ((fuel : ℕ) → n < fuel → Programs w (eee_probe_disable bus fuel w))
  unfolding eee_probe_disable
  eee_probe_disable-Programs w =
      let (a, (k, runs_a), e_a) =
        mmd_write-Runs bus laws w mmd_an mmd_an_eee_adv 0 (omega arith) (omega arith) in
      let (b, (l, runs_b), e_b) =
        mmd_read-Runs bus laws a mmd_an mmd_an_eee_adv (omega arith) (omega arith) in
      let (c, (m, runs_c), e_c) = mdio_read-Runs bus laws b mii_bmcr (omega arith) in
      let control = read_reg (phy b) mii_bmcr in
      let (d, (n, runs_d), e_d) = restart-Runs c control.1 in
      let asked : read_reg (window (phy a)) 14 ≡ readback (phy w) =
        ap (λ p. read_reg (window p) 14) e_a in
      let from : phy b ≡ (readback (phy w)).0 = e_b ∙ ap (λ (r : Phy × Option ℕ). r.0) asked in
      (
        k + l + m + n,
        λ fuel less.
            let result : eee_probe_disable bus fuel w ≡ (d, (read_reg (window (phy a)) 14).1) =
              rw
                (
                  runs_a fuel (omega (arith, less)),
                  runs_b fuel (omega (arith, less)),
                  runs_c fuel (omega (arith, less)),
                  runs_d fuel (omega (arith, less)),
                )
                refl in
            subst (Programs w) (sym result) (record {
              returns = ap (λ (r : Phy × Option ℕ). r.1) asked;
              leaves =
                  e_d
                  ∙ (ap (λ p. restarted (p, control.1)) e_c
                      ∙ ap (λ p. restarted (read_reg p 0)) from);
            }),
      )
