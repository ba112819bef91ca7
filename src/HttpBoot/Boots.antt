-- ===== src/HttpBoot/Boots.antt =====
-- The boot of an uploaded image.
use rapi_bootloader.Base.{
  ℕ, ◌-◌, ◌≡◌, refl, ap, ◌∙◌, ◌≢◌, ◌⊎◌, inl, inr, true, false, some, List, [], ◌∷◌, arith, ◌==◌,
  length, take, Bytes, codes, equal,
}
use rapi_bootloader.HttpBoot.Order.{kernel_parts, other_parts, submit_form_order}
use rapi_bootloader.HttpBoot.{
  Part, Pages, HttpWorld, is_kernel_part, is_defaults_part, submit_form, boot_form, take_parts,
  take_part, stage_kernel, get_content,
}
use rapi_bootloader.DefaultsBlock.{defaults_buffer_bytes}
use rapi_bootloader.Memory.Laws.{read-write_self}
use rapi_bootloader.Memory.{read, write}
use rapi_bootloader.Circle.{MemorySystem, Machine, ChainLoader}
use rapi_bootloader.ChainBoot.StageAlloc.{stage_alloc}
use rapi_bootloader.BootMenu.{c_str}
use rapi_bootloader.BootImage.Laws.{boot_image_armed}
use rapi_bootloader.BootImage.{boot_image_with_defaults}

module _ (ms : MemorySystem) (cl : ChainLoader ms.Heap) where
  -- The machine with an image staged.
  abbrev pub staged : Machine ms.Heap cl.Boot → Bytes → Machine ms.Heap cl.Boot
  staged m image = record m {
    heap = (stage_alloc ms m.heap (length image)).0;
    memory = write m.memory (stage_alloc ms m.heap (length image)).1 image;
  }

  submit_pair :
      (m : Machine ms.Heap cl.Boot) (k d : Part)
      → is_kernel_part k ≡ true
      → is_kernel_part d ≡ false
      → is_defaults_part d ≡ true
      → (stage_alloc ms m.heap (length k.data_bytes)).1 ≢ 0
      → (submit_form ms cl m (k ∷ d ∷ [])).0
        ≡ (boot_image_with_defaults cl
            (staged m k.data_bytes)
            (stage_alloc ms m.heap (length k.data_bytes)).1
            (length k.data_bytes)
            (some (c_str (take (defaults_buffer_bytes - 1) d.data_bytes)))).0
  unfolding submit_form boot_form take_parts take_part stage_kernel
  submit_pair m k d image other text real =
      let real' : ((stage_alloc ms m.heap (length k.data_bytes)).1 == 0) ≡ false =
        ground (arith, real) in
      rw (image, other, text, real', real') refl

  either_order :
      (m : Machine ms.Heap cl.Boot) (k d : Part) (parts : List Part)
      → is_kernel_part k ≡ true
      → is_kernel_part d ≡ false
      → (parts ≡ k ∷ d ∷ []) ⊎ (parts ≡ d ∷ k ∷ [])
      → submit_form ms cl m parts ≡ submit_form ms cl m (k ∷ d ∷ [])
  unfolding kernel_parts other_parts
  either_order m k d parts image other order = elim order [
    | inl same ↦ ap (submit_form ms cl m) same
    | inr swapped ↦
        ap (submit_form ms cl m) swapped
        ∙ submit_form_order ms cl m (d ∷ k ∷ []) (k ∷ d ∷ []) (rw (image, other) refl)
            (rw (image, other) refl)
  ]

  submit_form-index :
      (pages : Pages) (w : HttpWorld ms cl) (parts : List Part) (max : ℕ)
      → (get_content ms cl pages w (codes "/") parts max).0.machine
        ≡ (submit_form ms cl w.machine parts).0
  unfolding get_content equal
  submit_form-index pages w parts max = refl

  -- A form with an image and a defaults-string, in either order, whose image can be staged: what is
  -- booted is the image, with exactly the uploaded bytes at the staging address and armed with its
  -- full size, and the defaults it is booted with are the text up to 511 bytes or a NUL.
  pub get_content-boots :
      (pages : Pages) (w : HttpWorld ms cl) (k d : Part) (parts : List Part) (max : ℕ)
      → is_kernel_part k ≡ true
      → is_kernel_part d ≡ false
      → is_defaults_part d ≡ true
      → (parts ≡ k ∷ d ∷ []) ⊎ (parts ≡ d ∷ k ∷ [])
      → (stage_alloc ms w.machine.heap (length k.data_bytes)).1 ≢ 0
      → let image = (stage_alloc ms w.machine.heap (length k.data_bytes)).1 in
        let m = staged w.machine k.data_bytes in
        let m' = (get_content ms cl pages w (codes "/") parts max).0.machine in
        (m'
          ≡ (boot_image_with_defaults cl m image
              (length k.data_bytes)
              (some (c_str (take (defaults_buffer_bytes - 1) d.data_bytes)))).0)
        × (read m.memory image (length k.data_bytes) ≡ k.data_bytes)
        × (cl.armed m'.boot ≡ some (image, length k.data_bytes))
  get_content-boots pages w k d parts max image other text order real =
      let at = (stage_alloc ms w.machine.heap (length k.data_bytes)).1 in
      let text_bytes = c_str (take (defaults_buffer_bytes - 1) d.data_bytes) in
      let sorted = either_order w.machine k d parts image other order in
      let boots =
        submit_form-index pages w parts max
        ∙ ap (λ (r : Machine ms.Heap cl.Boot × Bytes). r.0) sorted
        ∙ submit_pair w.machine k d image other text real in
      (
        boots,
        read-write_self w.machine.memory at k.data_bytes,
        ap (λ (m : Machine ms.Heap cl.Boot). cl.armed m.boot) boots
            ∙ boot_image_armed cl (staged w.machine k.data_bytes) at (length k.data_bytes)
                (some text_bytes) real,
      )
