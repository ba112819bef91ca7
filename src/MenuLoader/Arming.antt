-- ===== src/MenuLoader/Arming.antt =====
-- When `BootSelection` does boot.
use rapi_bootloader.Base.{
  ℕ, zero, suc, ◌≤◌, ◌<◌, ◌≡◌, refl, sym, ap, ◌∙◌, subst, ◌≢◌, inl, inr, true, false, not, ◌||◌,
  Option, some, [], arith, ltb, leb, ◌==◌, Bool-cases, length, length-append, length-take, Bytes,
}
use rapi_bootloader.BootImage.{BootMessage}
use rapi_bootloader.BootMenu.{Menu, get_string}
use rapi_bootloader.Circle.{MemorySystem, ChainLoader}
use rapi_bootloader.FatFs.{FatFs, is_ok, fa_read}
use rapi_bootloader.Memory.{read}
use rapi_bootloader.MenuLoader.Booting.{start_loading, loaded_image, file_contents}
use rapi_bootloader.MenuLoader.Selection.{
  Outcome, armed, MenuWorld, Loading, read_chunk, read_image, with_image_buffer, boot_file,
  boot_entry, boot_chosen, boot_selection,
}
use rapi_bootloader.MenuLoader.Staging.{
  ReadsInOrder, IsLoading, chunk_of, read_chunk-IsLoading, after_read, read_image-StagesAll,
}
use rapi_bootloader.MenuLoader.Turn.{get_label_in, get_string_in}

module _ (fs : FatFs) (law : ReadsInOrder fs) where
  -- No read of the card fails.
  abbrev pub NeverFails : Type 0
  NeverFails = (c : fs.Card) (f : fs.File) (n : ℕ) → is_ok (fs.f_read c f n).2 ≡ true

  read_ok-read_chunk :
      (buffer : ℕ) (contents : Bytes) (l : Loading fs) (seen : Bytes)
      → NeverFails
      → IsLoading fs law buffer contents l seen
      → leb (length contents) l.offset ≡ false
      → (read_chunk fs buffer (length contents) l).read_ok ≡ true
  unfolding read_chunk
  read_ok-read_chunk buffer contents l seen good h left =
      let chunk = chunk_of fs law buffer contents l in
      let ok = good l.card l.file chunk in
      let got = ap length (law.reads l.card l.file chunk ok).0 in
      let rest = law.rest l.card l.file in
      let whole = sym (length-append seen rest) ∙ ap length h.split in
      let some_bytes : 0 < length (fs.f_read l.card l.file chunk).3 =
        ground (arith, got, length-take chunk rest, whole, h.so_far, left) in
      ground (arith, ok, some_bytes)

  pub read_image-ok :
      (buffer : ℕ) (contents : Bytes) (fuel : ℕ) (l : Loading fs) (seen : Bytes)
      → NeverFails
      → IsLoading fs law buffer contents l seen
      → l.read_ok ≡ true
      → (read_image fs fuel buffer (length contents) l).read_ok ≡ true
  unfolding read_image
  read_image-ok buffer contents zero l seen good h ok = ok
  read_image-ok buffer contents (suc fuel) l seen good h ok =
      elim (Bool-cases (leb (length contents) l.offset)) [
        | inl end ↦ rw end ok
        | inr left ↦
            let read = read_ok-read_chunk buffer contents l seen good h left in
            let step = read_chunk-IsLoading fs law buffer contents l seen h read in
            subst (λ (r : Loading fs). r.read_ok ≡ true)
              (sym (after_read fs law buffer contents fuel l true left read))
              (read_image-ok buffer contents fuel (read_chunk fs buffer (length contents) l) _ good
                step.1 read)
      ]

module _ (ms : MemorySystem) (cl : ChainLoader ms.Heap) (fs : FatFs) (law : ReadsInOrder fs) where
  loaded_image-whole :
      (w : MenuWorld ms.Heap cl.Boot fs.Card) (file : fs.File)
      → NeverFails fs law
      → fs.f_size file ≡ length (law.rest w.card file)
      → ((loaded_image ms cl fs w file).read_ok ≡ true)
        × ((loaded_image ms cl fs w file).offset ≡ fs.f_size file)
  unfolding read
  loaded_image-whole w file good size =
      let contents = law.rest w.card file in
      let first = start_loading ms cl fs w file in
      let begun : IsLoading fs law w.image_buffer contents first [] = record {
        so_far = refl;
        staged = refl;
        split = refl;
      } in
      let ok =
        read_image-ok fs law w.image_buffer contents (length contents) first [] good begun refl in
      let all =
        read_image-StagesAll fs law w.image_buffer contents (length contents) first [] begun
          (omega arith) ok in
      subst
        (λ (n : ℕ).
          ((read_image fs n w.image_buffer n first).read_ok ≡ true)
          × ((read_image fs n w.image_buffer n first).offset ≡ n))
        (sym size) (ok, all.0)

  abbrev Arms : MenuWorld ms.Heap cl.Boot fs.Card × Outcome → Type 0
  Arms r = (message : BootMessage) × (r.1 ≡ armed message)

  boot_file-Arms :
      (w : MenuWorld ms.Heap cl.Boot fs.Card) (file : fs.File) (string : Bytes)
      → NeverFails fs law
      → fs.f_size file ≡ length (law.rest w.card file)
      → 0 < fs.f_size file
      → fs.f_size file ≤ ms.kernel_max_size
      → Arms (boot_file ms cl fs w file string)
  unfolding boot_file
  boot_file-Arms w file string good size some_bytes fits =
      let whole = loaded_image-whole w file good size in
      let in_range : (fs.f_size file == 0 || ltb ms.kernel_max_size (fs.f_size file)) ≡ false =
        ground arith in
      let complete : (not (loaded_image ms cl fs w file).read_ok
            || not ((loaded_image ms cl fs w file).offset == fs.f_size file))
          ≡ false =
        ground (arith, whole.0, whole.1) in
      rw (in_range, complete) (_, refl)

  boot_entry-Arms :
      (w : MenuWorld ms.Heap cl.Boot fs.Card) (path string : Bytes)
      → NeverFails fs law
      → is_ok (fs.f_open w.card path fa_read).1 ≡ true
      → 0 < length (file_contents ms cl fs law w.card path)
      → length (file_contents ms cl fs law w.card path) ≤ ms.kernel_max_size
      → (with_image_buffer ms cl fs w).image_buffer ≢ 0
      → Arms (boot_entry ms cl fs w path string)
  unfolding boot_entry
  boot_entry-Arms w path string good opens some_bytes fits buffer =
      let staged = with_image_buffer ms cl fs w in
      let opened = fs.f_open w.card path fa_read in
      let size = law.sizes w.card path opens in
      let has_buffer : (staged.image_buffer == 0) ≡ false = ground (arith, buffer) in
      rw (has_buffer, opens)
        (boot_file-Arms (record staged { card = opened.0 }) opened.2 string good size
          (subst (λ n. 0 < n) (sym size) some_bytes)
          (subst (λ n. n ≤ ms.kernel_max_size) (sym size) fits))

  -- On a card that is read in order and never fails, selecting an entry of the menu arms a boot when
  -- the kernel file opens, is not empty and no longer than KERNEL_MAX_SIZE, and a staging buffer is
  -- there or can be allocated: none of the fatal ends is reached.
  pub boot_selection-arms :
      (w : MenuWorld ms.Heap cl.Boot fs.Card) (menu : Menu) (path : Bytes) (index : ℕ)
      → NeverFails fs law
      → index < length menu
      → is_ok (fs.f_open w.card path fa_read).1 ≡ true
      → 0 < length (file_contents ms cl fs law w.card path)
      → length (file_contents ms cl fs law w.card path) ≤ ms.kernel_max_size
      → (with_image_buffer ms cl fs w).image_buffer ≢ 0
      → (message : BootMessage) × ((boot_selection ms cl fs w menu path index).1 ≡ armed message)
  unfolding boot_selection boot_chosen
  boot_selection-arms w menu path index good inside opens some_bytes fits buffer =
      let l = get_label_in menu index inside in
      let s = get_string_in menu index inside in
      subst (λ (o : Option Bytes). Arms (boot_chosen ms cl fs w path o (get_string menu index)))
        (sym l.1)
        (subst (λ (o : Option Bytes). Arms (boot_chosen ms cl fs w path (some l.0) o)) (sym s.1)
          (boot_entry-Arms w path s.0 good opens some_bytes fits buffer))
