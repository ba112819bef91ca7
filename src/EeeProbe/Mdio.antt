-- ===== src/EeeProbe/Mdio.antt =====
-- What the probe relies on in the MAC and the PHY, one MDIO transaction at a time, and what each
-- function of the probe comes to then.
use rapi_bootloader.Base.{
  ℕ, zero, suc, ◌+◌, ◌*◌, ◌%◌, ◌^◌, ◌≤◌, ◌<◌, ◌≡◌, refl, Bool, true, false, Option, none, some,
  arith, ltb,
}
use rapi_bootloader.EeeProbe.{
  Bus, mdio_start_busy, mdio_read_fail, mdio_rd, mdio_wr, phy_addr, has_bit, with_bit,
  mdio_cmd_read, mdio_cmd_write, since, wait_loop,
}
use rapi_bootloader.EeeProbe.Waits.{polled}

module _ (bus : Bus) where
  open bus use {World, hz, get_ticks}

  -- The polls of a transaction that the controller finishes within a second.
  pub data Finishes (start : ℕ) : World → World → Type 0 where
    done :
        (w : World)
        → has_bit mdio_start_busy (mdio_cmd_read bus w).1 ≡ false
        → Finishes start w (mdio_cmd_read bus w).0
    busy :
        {w w' : World}
        → has_bit mdio_start_busy (mdio_cmd_read bus w).1 ≡ true
        → since bus start (polled bus w).1 ≤ hz
        → Finishes start (polled bus w).0 w'
        → Finishes start w w'

  -- With enough fuel an operation gives a result.
  abbrev pub Runs : {A : Type 0} → (ℕ → World × A) → World × A → Type 0
  Runs op r = (n : ℕ) × ((fuel : ℕ) → n < fuel → op fuel ≡ r)

  free_now :
      (start fuel : ℕ) (w : World)
      → has_bit mdio_start_busy (mdio_cmd_read bus w).1 ≡ false
      → 0 < fuel
      → wait_loop bus fuel start w ≡ ((mdio_cmd_read bus w).0, true)
  unfolding wait_loop
  free_now start zero w free less = absurd (omega (arith, less))
  free_now start (suc fuel) w free less = rw free refl

  busy_now :
      (start n fuel : ℕ) (w : World) {r : World × Bool}
      → has_bit mdio_start_busy (mdio_cmd_read bus w).1 ≡ true
      → since bus start (polled bus w).1 ≤ hz
      → ((fuel : ℕ) → n < fuel → wait_loop bus fuel start (polled bus w).0 ≡ r)
      → suc n < fuel
      → wait_loop bus fuel start w ≡ r
  unfolding wait_loop
  busy_now start n zero w is_busy in_time later less = absurd (omega (arith, less))
  busy_now start n (suc fuel) w is_busy in_time later less =
      let early : ltb hz (since bus start (polled bus w).1) ≡ false = ground (arith, in_time) in
      rw (is_busy, early) (later fuel (omega (arith, less)))

  pub wait_loop-Runs :
      {start : ℕ} {w w' : World}
      → Finishes start w w'
      → Runs (λ fuel. wait_loop bus fuel start w) (w', true)
  wait_loop-Runs {start} (done w free) = (0, λ fuel less. free_now start fuel w free less)
  wait_loop-Runs {start} (busy {w = w} is_busy in_time later) =
      let (n, runs) = wait_loop-Runs later in
      (suc n, λ fuel less. busy_now start n fuel w is_busy in_time runs less)

  -- The transaction that a command with the busy bit starts.
  abbrev pub started : World → ℕ → World × ℕ
  started w v = get_ticks (mdio_cmd_write bus w (with_bit mdio_start_busy v))

  abbrev pub write_command : ℕ → ℕ → ℕ
  write_command reg v = mdio_wr + phy_addr * 2 ^ 21 + reg * 2 ^ 16 + v % 65536

  abbrev pub read_command : ℕ → ℕ
  read_command reg = mdio_rd + phy_addr * 2 ^ 21 + reg * 2 ^ 16

  -- What the command register holds after a read: a PHY that does not answer sets the failure bit.
  abbrev pub Answers : ℕ → Option ℕ → Type 0
  Answers cmd none = has_bit mdio_read_fail cmd ≡ true
  Answers cmd (some v) = (has_bit mdio_read_fail cmd ≡ false) × (cmd % 65536 ≡ v)

  -- The documented behaviour of the MDIO controller of the MAC, on any PHY: a transaction writes or
  -- reads one of the 32 registers, and nothing else reaches the PHY. Of what the registers do, nothing
  -- is assumed.
  pub record MdioLaws : Type 1 where
    pub Phy : Type 0
    pub phy : World → Phy
    pub read_reg : Phy → ℕ → Phy × Option ℕ
    pub write_reg : Phy → ℕ → ℕ → Phy
    pub prepares :
        (w : World) (v : ℕ)
        → has_bit mdio_start_busy v ≡ false
        → let r = mdio_cmd_read bus (mdio_cmd_write bus w v) in (r.1 ≡ v) × (phy r.0 ≡ phy w)
    pub writes :
        (w : World) (reg v : ℕ)
        → reg < 32
        → let start = started w (write_command reg v) in
          (w' : World) × Finishes start.1 start.0 w' × (phy w' ≡ write_reg (phy w) reg (v % 65536))
    pub reads :
        (w : World) (reg : ℕ)
        → reg < 32
        → let start = started w (read_command reg) in
          (w' : World) × Finishes start.1 start.0 w'
          × (let r = mdio_cmd_read bus w' in
              Answers r.1 (read_reg (phy w) reg).1 × (phy r.0 ≡ (read_reg (phy w) reg).0))
