-- ===== src/HttpBoot/Order.antt =====
-- The order in which a browser sends the parts of the form.
use rapi_bootloader.Base.{
  ℕ, ◌≡◌, refl, sym, ap, ◌∙◌, inl, inr, true, false, List, [], ◌∷◌, arith, if◌then◌else◌,
  Bool-cases, Bytes,
}
use rapi_bootloader.HttpBoot.{
  Part, Form, is_kernel_part, is_defaults_part, take_part, take_parts, stage_kernel, submit_form,
  boot_form, empty_form, Pages, HttpWorld, get_content,
}
use rapi_bootloader.Circle.{MemorySystem, ChainLoader, Machine}

-- The parts of a form that bring an image, and the others.
unfoldable pub kernel_parts : List Part → List Part
kernel_parts [] = []
kernel_parts (p ∷ parts) =
    let rest = kernel_parts parts in if is_kernel_part p then p ∷ rest else rest

unfoldable pub other_parts : List Part → List Part
other_parts [] = []
other_parts (p ∷ parts) =
    let rest = other_parts parts in if is_kernel_part p then rest else p ∷ rest

pub split_image :
    (p : Part) (parts : List Part)
    → is_kernel_part p ≡ true
    → (kernel_parts (p ∷ parts) ≡ p ∷ kernel_parts parts)
      × (other_parts (p ∷ parts) ≡ other_parts parts)
unfolding kernel_parts other_parts
split_image p parts image = (rw image refl, rw image refl)

pub split_other :
    (p : Part) (parts : List Part)
    → is_kernel_part p ≡ false
    → (kernel_parts (p ∷ parts) ≡ kernel_parts parts)
      × (other_parts (p ∷ parts) ≡ p ∷ other_parts parts)
unfolding kernel_parts other_parts
split_other p parts other = (rw other refl, rw other refl)

module _ (ms : MemorySystem) (cl : ChainLoader ms.Heap) where
  take_part_swap :
      (f : Form ms cl) (k d : Part)
      → is_kernel_part k ≡ true
      → is_kernel_part d ≡ false
      → take_part ms cl (take_part ms cl f d) k ≡ take_part ms cl (take_part ms cl f k) d
  unfolding take_part stage_kernel
  take_part_swap f k d image other = elim (Bool-cases (is_defaults_part d)) [
    | inl text ↦ rw (image, other, text) (ground arith)
    | inr neither ↦ rw (image, other, neither) refl
  ]

  take_parts_swap :
      (parts : List Part) (f : Form ms cl) (d : Part)
      → is_kernel_part d ≡ false
      → take_parts ms cl (take_part ms cl f d) (kernel_parts parts)
        ≡ take_part ms cl (take_parts ms cl f (kernel_parts parts)) d
  unfolding take_parts kernel_parts
  take_parts_swap [] f d other = refl
  take_parts_swap (p ∷ parts) f d other = elim (Bool-cases (is_kernel_part p)) [
    | inl image ↦ rw image (
        ap (λ f. take_parts ms cl f (kernel_parts parts)) (take_part_swap f p d image other)
        ∙ take_parts_swap parts (take_part ms cl f p) d other)
    | inr not_image ↦ rw not_image (take_parts_swap parts f d other)
  ]

  -- A form comes to the same as its images followed by its other parts.
  pub take_parts_by_kind :
      (parts : List Part) (f : Form ms cl)
      → take_parts ms cl f parts
        ≡ take_parts ms cl (take_parts ms cl f (kernel_parts parts)) (other_parts parts)
  unfolding take_parts kernel_parts other_parts
  take_parts_by_kind [] f = refl
  take_parts_by_kind (p ∷ parts) f = elim (Bool-cases (is_kernel_part p)) [
    | inl image ↦
        let (kernels, others) = split_image p parts image in
        rw (kernels, others) (take_parts_by_kind parts (take_part ms cl f p))
    | inr other ↦
        let (kernels, others) = split_other p parts other in
        rw (kernels, others)
          (take_parts_by_kind parts (take_part ms cl f p)
            ∙ ap (λ f. take_parts ms cl f (other_parts parts)) (take_parts_swap parts f p other))
  ]

  same_parts : (parts : List Part) → kernel_parts parts ≡ [] → other_parts parts ≡ [] → parts ≡ []
  same_parts [] h k = refl
  same_parts (p ∷ parts) h k = elim (Bool-cases (is_kernel_part p)) [
    | inl image ↦ absurd (ground (arith, split_image p parts image, h))
    | inr other ↦ absurd (ground (arith, split_other p parts other, k))
  ]

  pub submit_form_order :
      (m : Machine ms.Heap cl.Boot) (parts parts' : List Part)
      → kernel_parts parts ≡ kernel_parts parts'
      → other_parts parts ≡ other_parts parts'
      → submit_form ms cl m parts ≡ submit_form ms cl m parts'
  unfolding submit_form kernel_parts other_parts
  submit_form_order m [] parts' h k =
      ap (submit_form ms cl m) (sym (same_parts parts' (sym h) (sym k)))
  submit_form_order m (p ∷ parts) [] h k = ap (submit_form ms cl m) (same_parts (p ∷ parts) h k)
  submit_form_order m (p ∷ parts) (q ∷ parts') h k =
      let taken = take_parts ms cl (empty_form ms cl m) in
      ap (boot_form ms cl) (
        take_parts_by_kind (p ∷ parts) (empty_form ms cl m)
        ∙ ap (λ ps. take_parts ms cl (taken ps) (other_parts (p ∷ parts))) h
        ∙ ap (λ ps. take_parts ms cl (taken (kernel_parts (q ∷ parts'))) ps) k
        ∙ sym (take_parts_by_kind (q ∷ parts') (empty_form ms cl m)))

  -- The browser may send the parts in any order: two forms with the same image parts in the same
  -- order, and the same other parts in the same order, get the same answer and leave the same machine
  -- and reboot flag, however the two kinds are mixed.
  pub get_content_order :
      (pages : Pages) (w : HttpWorld ms cl) (path : Bytes) (parts parts' : List Part) (max : ℕ)
      → kernel_parts parts ≡ kernel_parts parts'
      → other_parts parts ≡ other_parts parts'
      → get_content ms cl pages w path parts max ≡ get_content ms cl pages w path parts' max
  unfolding get_content
  get_content_order pages w path parts parts' max h k =
      rw (submit_form_order w.machine parts parts' h k) refl
