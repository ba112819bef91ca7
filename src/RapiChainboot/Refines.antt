-- ===== src/RapiChainboot/Refines.antt =====
-- The Pi 5 chain-boot behind the interface of the loaders, and as a small abstract machine.
use rapi_bootloader.Base.{
  ℕ, ◌≡◌, refl, ap, ◌∙◌, ◌≢◌, Bool, true, false, Option, none, some, List, [], ◌∷◌, arith, ◌==◌,
  if◌then◌else◌,
}
use rapi_bootloader.Circle.{MemorySystem, Machine, ChainLoader}
use rapi_bootloader.RapiChainboot.{
  MachineInfo, Statics, Enabled, answers, hands_off, stage_dtb, capture_dtb, with_stub,
  enable_chain_boot, main_returning, is_chain_boot_enabled,
}

module _ (ms : MemorySystem) (info : MachineInfo) (new_bytes : ms.Heap → ℕ → ms.Heap × ℕ)
    (stub_code : ℕ) where
  -- What is armed: nothing while the image is the null pointer.
  abbrev pub armed : Statics → Option (ℕ × ℕ)
  armed s = if s.kernel_image == 0 then none else some (s.kernel_image, s.kernel_size)

  image-capture_dtb :
      (m : Machine ms.Heap Statics)
      → let m' = capture_dtb ms info new_bytes stub_code m in
        (m'.boot.kernel_image ≡ m.boot.kernel_image)
        × (m'.boot.kernel_size ≡ m.boot.kernel_size)
        × (m'.boot.loader_main_returned ≡ m.boot.loader_main_returned)
  unfolding capture_dtb stage_dtb
  image-capture_dtb m = (ground arith, ground arith, ground arith)

  image-enable_chain_boot :
      (m : Machine ms.Heap Statics) (image image_size : ℕ)
      → let m' = enable_chain_boot ms info new_bytes stub_code m image image_size in
        (m'.boot.kernel_image ≡ image)
        × (m'.boot.kernel_size ≡ image_size)
        × (m'.boot.loader_main_returned ≡ m.boot.loader_main_returned)
  unfolding enable_chain_boot with_stub
  image-enable_chain_boot m image image_size =
      let noted = record m {
        boot = record m.boot { kernel_image = image; kernel_size = image_size };
      } in
      let c = image-capture_dtb noted in
      (ground (arith, c.0), ground (arith, c.1), ground (arith, c.2))

  pub armed-enable_chain_boot :
      (m : Machine ms.Heap Statics) (image image_size : ℕ)
      → image ≢ 0
      → armed (enable_chain_boot ms info new_bytes stub_code m image image_size).boot
        ≡ some (image, image_size)
  armed-enable_chain_boot m image image_size real =
      let e = image-enable_chain_boot m image image_size in ground (arith, e.0, e.1, real)

  -- The Pi 5's chain-boot fills the interface that the loaders use.
  abbrev pub rapi_chain_loader : ChainLoader ms.Heap
  rapi_chain_loader = record {
    Boot = Statics;
    enable_chain_boot = enable_chain_boot ms info new_bytes stub_code;
    armed = armed;
    armed-enable_chain_boot = armed-enable_chain_boot;
  }

  -- The calls of a loader, and of `sysinit` after it.
  pub data Call : Type 0 where
    arms : ℕ → ℕ → Call
    returns : Call
    asks : Call

  -- The abstract machine: what is armed, and whether main has returned.
  pub record Abstract : Type 0 where
    pub pending : Option (ℕ × ℕ)
    pub returned : Bool

  abbrev pub answer : Abstract → Enabled
  answer a = elim a.pending [
    | none ↦ answers false
    | some image ↦ if a.returned then hands_off else answers true
  ]

  -- The answers to the questions of a run, in order.
  unfoldable pub run_abstract : List Call → Abstract → List Enabled
  run_abstract [] a = []
  run_abstract (arms image image_size ∷ calls) a =
      run_abstract calls (record a { pending = some (image, image_size) })
  run_abstract (returns ∷ calls) a = run_abstract calls (record a { returned = true })
  run_abstract (asks ∷ calls) a = answer a ∷ run_abstract calls a

  unfoldable pub run_calls : List Call → Machine ms.Heap Statics → List Enabled
  run_calls [] m = []
  run_calls (arms image image_size ∷ calls) m =
      run_calls calls (enable_chain_boot ms info new_bytes stub_code m image image_size)
  run_calls (returns ∷ calls) m = run_calls calls (record m { boot = main_returning m.boot })
  run_calls (asks ∷ calls) m = is_chain_boot_enabled m.boot ∷ run_calls calls m

  abbrev pub view : Statics → Abstract
  view s = record { pending = armed s; returned = s.loader_main_returned }

  -- No image is at the null pointer.
  abbrev pub AreReal : List Call → Type 0
  AreReal [] = Unit {0}
  AreReal (arms image image_size ∷ calls) = (image ≢ 0) × AreReal calls
  AreReal (returns ∷ calls) = AreReal calls
  AreReal (asks ∷ calls) = AreReal calls

  view-arms :
      (m : Machine ms.Heap Statics) (image image_size : ℕ)
      → image ≢ 0
      → view (enable_chain_boot ms info new_bytes stub_code m image image_size).boot
        ≡ record (view m.boot) { pending = some (image, image_size) }
  view-arms m image image_size real =
      let e = image-enable_chain_boot m image image_size in ground (arith, e.0, e.1, e.2, real)

  answer-view : (s : Statics) → is_chain_boot_enabled s ≡ answer (view s)
  unfolding is_chain_boot_enabled
  answer-view s = ground arith

  -- The static variables refine the abstract machine: whatever images are armed, none at the null
  -- pointer, and whenever main returns, every question gets the abstract answer. So the answer is no
  -- before the first arming, yes from then on, and the hand-off once main has returned as well.
  pub run_calls-run_abstract :
      (calls : List Call) (m : Machine ms.Heap Statics)
      → AreReal calls
      → run_calls calls m ≡ run_abstract calls (view m.boot)
  unfolding run_calls run_abstract main_returning
  run_calls-run_abstract [] m real = refl
  run_calls-run_abstract (arms image image_size ∷ calls) m real =
      run_calls-run_abstract calls
        (enable_chain_boot ms info new_bytes stub_code m image image_size) real.1
      ∙ ap (run_abstract calls) (view-arms m image image_size real.0)
  run_calls-run_abstract (returns ∷ calls) m real =
      run_calls-run_abstract calls (record m { boot = main_returning m.boot }) real
  run_calls-run_abstract (asks ∷ calls) m real =
      cc (answer-view m.boot, run_calls-run_abstract calls m real)
