-- ===== src/Devices.antt =====
-- The devices of a loader, whose Initialize both kernels call one after the other.
use rapi_bootloader.Base.{
  ◌≡◌, refl, ◌↔◌, inl, inr, Bool, true, List, [], ◌∷◌, arith, if◌then◌else◌, Bool-cases,
}

-- Circle's devices and the mounting of the card: the world after the call, and whether it succeeded.
pub record Devices (World : Type 0) : Type 0 where
  pub screen : World → World × Bool
  pub serial : World → World × Bool
  pub logger : World → World × Bool
  pub interrupt : World → World × Bool
  pub timer : World → World × Bool
  pub usb : World → World × Bool
  pub emmc : World → World × Bool
  pub f_mount : World → World × Bool
  pub net : World → World × Bool

module _ {World : Type 0} where
  -- The chain of `if (bOK)`: after a failure nothing more is called.
  unfoldable pub start_all : List (World → World × Bool) → World → World × Bool
  start_all [] w = (w, true)
  start_all (start ∷ starts) w =
      let started = start w in
      let rest = start_all starts started.0 in if started.1 then rest else started

  -- The card: the controller, and the volume if there is one.
  unfoldable pub mount_card : Devices World → World → World × Bool
  mount_card d w =
      let found = d.emmc w in let mounted = d.f_mount found.0 in if found.1 then mounted else found

  -- Every call of a list succeeds.
  abbrev pub AllStart : List (World → World × Bool) → World → Type 0
  AllStart [] w = Unit
  AllStart (start ∷ starts) w = ((start w).1 ≡ true) × AllStart starts (start w).0

  -- The chain succeeds exactly when every call does, each on the world that the one before left.
  pub start_all_iff :
      (starts : List (World → World × Bool)) (w : World)
      → ((start_all starts w).1 ≡ true) ↔ AllStart starts w
  unfolding start_all
  start_all_iff [] w = ((λ h. tt), (λ h. refl))
  start_all_iff (start ∷ starts) w = elim (Bool-cases (start w).1) [
    | inl ok ↦
        let rest = start_all_iff starts (start w).0 in
        rw (ok, start_all) ((λ h. (refl, rest.0 h)), (λ h. rest.1 h.1))
    | inr failed ↦
        rw (failed, start_all)
          ((λ h. absurd (ground (arith, h, failed))), (λ h. absurd (ground (arith, h.0))))
  ]
