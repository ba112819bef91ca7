-- ===== src/MenuLoader/Booting.antt =====
-- What `BootSelection` boots.
use rapi_bootloader.Base.{
  ℕ, ◌≤◌, ◌<◌, ◌≡◌, refl, sym, ◌∙◌, subst, ◌≢◌, inl, inr, true, Option, none, some, [], arith, ◌==◌,
  Bool-cases, length, Bytes,
}
use rapi_bootloader.BootImage.{BootMessage, boot_image_with_defaults}
use rapi_bootloader.BootMenu.{Menu, get_label, get_string}
use rapi_bootloader.Circle.{MemorySystem, Machine, ChainLoader}
use rapi_bootloader.FatFs.{FatFs, is_ok, fa_read}
use rapi_bootloader.Memory.{read}
use rapi_bootloader.MenuLoader.Selection.{
  armed, MenuWorld, Loading, read_image, with_image_buffer, boot_file, boot_entry, boot_chosen,
  boot_selection,
}
use rapi_bootloader.MenuLoader.Staging.{ReadsInOrder, IsLoading, read_image-StagesAll}

module _ (ms : MemorySystem) (cl : ChainLoader ms.Heap) (fs : FatFs) where
  -- The machine was handed to `BootImageWithDefaults` with a file in the staging buffer; `start` is the
  -- state with that buffer allocated.
  pub record BootsFile (start w : MenuWorld ms.Heap cl.Boot fs.Card) (contents string : Bytes)
      (message : BootMessage) : Type 0 where
    pub loaded : Machine ms.Heap cl.Boot
    pub same_heap : loaded.heap ≡ start.machine.heap
    pub same_boot : loaded.boot ≡ start.machine.boot
    pub same_buffer : w.image_buffer ≡ start.image_buffer
    pub holds : read loaded.memory w.image_buffer (length contents) ≡ contents
    pub not_empty : 0 < length contents
    pub in_buffer : length contents ≤ ms.kernel_max_size
    pub has_buffer : w.image_buffer ≢ 0
    pub boots :
        boot_image_with_defaults cl loaded w.image_buffer (length contents) (some string)
        ≡ (w.machine, message)

  abbrev pub start_loading : MenuWorld ms.Heap cl.Boot fs.Card → fs.File → Loading fs
  start_loading w file = record {
    memory = w.machine.memory;
    card = w.card;
    file = file;
    offset = 0;
    read_ok = true;
  }

  abbrev pub loaded_image : MenuWorld ms.Heap cl.Boot fs.Card → fs.File → Loading fs
  loaded_image w file =
      read_image fs (fs.f_size file) w.image_buffer (fs.f_size file)
        record { memory = w.machine.memory; card = w.card; file = file; offset = 0; read_ok = true }

  pub boot_file_cases :
      (w : MenuWorld ms.Heap cl.Boot fs.Card) (file : fs.File) (string : Bytes)
      (message : BootMessage)
      → (boot_file ms cl fs w file string).1 ≡ armed message
      → (0 < fs.f_size file)
        × (fs.f_size file ≤ ms.kernel_max_size)
        × ((loaded_image w file).read_ok ≡ true)
        × (boot_image_with_defaults cl
              (record w.machine { memory = (loaded_image w file).memory })
              w.image_buffer
              (fs.f_size file)
              (some string)
            ≡ ((boot_file ms cl fs w file string).0.machine, message))
        × ((boot_file ms cl fs w file string).0.image_buffer ≡ w.image_buffer)
  unfolding boot_file
  boot_file_cases w file string message e =
      (ground arith, ground arith, ground arith, ground arith, ground arith)

  pub loaded_image-staged :
      (law : ReadsInOrder fs) (w : MenuWorld ms.Heap cl.Boot fs.Card) (file : fs.File)
      → fs.f_size file ≡ length (law.rest w.card file)
      → (loaded_image w file).read_ok ≡ true
      → read (loaded_image w file).memory w.image_buffer (length (law.rest w.card file))
        ≡ law.rest w.card file
  unfolding read
  loaded_image-staged law w file size good =
      let contents = law.rest w.card file in
      let first : IsLoading fs law w.image_buffer contents (start_loading w file) [] = record {
        so_far = refl;
        staged = refl;
        split = refl;
      } in
      let all =
        read_image-StagesAll fs law w.image_buffer contents (length contents) (start_loading w file)
          [] first (omega arith) in
      subst
        (λ (n : ℕ).
          (read_image fs n w.image_buffer n (start_loading w file)).read_ok ≡ true
          → read (read_image fs n w.image_buffer n (start_loading w file)).memory w.image_buffer
              (length contents)
            ≡ contents)
        (sym size) (λ ok. (all ok).1) good

  boot_file-BootsFile :
      (law : ReadsInOrder fs) (w : MenuWorld ms.Heap cl.Boot fs.Card) (file : fs.File)
      → (string : Bytes) (message : BootMessage) → fs.f_size file ≡ length (law.rest w.card file)
      → w.image_buffer ≢ 0
      → (boot_file ms cl fs w file string).1 ≡ armed message
      → BootsFile w (boot_file ms cl fs w file string).0 (law.rest w.card file) string message
  boot_file-BootsFile law w file string message size buffer e =
      let c = boot_file_cases w file string message e in
      let machine = record w.machine { memory = (loaded_image w file).memory } in
      record {
        loaded = machine;
        same_heap = refl;
        same_boot = refl;
        same_buffer = c.4;
        holds = rw c.4 (loaded_image-staged law w file size c.2);
        not_empty = subst (λ n. 0 < n) size c.0;
        in_buffer = subst (λ n. n ≤ ms.kernel_max_size) size c.1;
        has_buffer = λ z. buffer (sym c.4 ∙ z);
        boots = rw c.4 (
            subst
              (λ n.
                boot_image_with_defaults cl machine w.image_buffer n (some string)
                ≡ ((boot_file ms cl fs w file string).0.machine, message))
              size c.3);
      }

  abbrev opened_card : MenuWorld ms.Heap cl.Boot fs.Card → Bytes → fs.Card
  opened_card w path = (fs.f_open w.card path fa_read).0

  abbrev pub file_contents : ReadsInOrder fs → fs.Card → Bytes → Bytes
  file_contents law card path =
      law.rest (fs.f_open card path fa_read).0 (fs.f_open card path fa_read).2

  -- The opening of the file changes neither the machine nor the buffer.
  from_staged :
      {w : MenuWorld ms.Heap cl.Boot fs.Card} {contents string : Bytes} {message : BootMessage}
      → (staged : MenuWorld ms.Heap cl.Boot fs.Card) (card : fs.Card)
      → BootsFile (record staged { card = card }) w contents string message
      → BootsFile staged w contents string message
  from_staged staged card h = record {
    loaded = h.loaded;
    same_heap = h.same_heap;
    same_boot = h.same_boot;
    same_buffer = h.same_buffer;
    holds = h.holds;
    not_empty = h.not_empty;
    in_buffer = h.in_buffer;
    has_buffer = h.has_buffer;
    boots = h.boots;
  }

  boot_entry-BootsFile :
      (law : ReadsInOrder fs) (w : MenuWorld ms.Heap cl.Boot fs.Card)
      → (path string : Bytes) (message : BootMessage)
      → (boot_entry ms cl fs w path string).1 ≡ armed message
      → BootsFile
          (with_image_buffer ms cl fs w)
          (boot_entry ms cl fs w path string).0
          (file_contents law w.card path)
          string
          message
  unfolding boot_entry
  boot_entry-BootsFile law w path string message =
      let staged = with_image_buffer ms cl fs w in
      let opened = fs.f_open w.card path fa_read in
      elim (Bool-cases (staged.image_buffer == 0)) [
        | inl null ↦ rw null (λ e. ground (arith, e))
        | inr buffer ↦ elim (Bool-cases (is_ok opened.1)) [
          | inl ok ↦
              rw (buffer, ok)
                (λ e. from_staged staged opened.0 (
                  boot_file-BootsFile law (record staged { card = opened.0 }) opened.2 string
                    message (law.sizes w.card path ok) (ground (arith, buffer)) e))
          | inr bad ↦ rw (buffer, bad) (λ e. ground (arith, e))
        ]
      ]

  boot_chosen-BootsFile :
      (law : ReadsInOrder fs) (w : MenuWorld ms.Heap cl.Boot fs.Card) (path : Bytes)
      → (label chosen : Option Bytes) (message : BootMessage)
      → (boot_chosen ms cl fs w path label chosen).1 ≡ armed message
      → (string : Bytes) × (chosen ≡ some string)
        × BootsFile
            (with_image_buffer ms cl fs w)
            (boot_chosen ms cl fs w path label chosen).0
            (file_contents law w.card path)
            string
            message
  unfolding boot_chosen
  boot_chosen-BootsFile law w path (some label) (some string) message e =
      (string, refl, boot_entry-BootsFile law w path string message e)
  boot_chosen-BootsFile law w path (some label) none message e = absurd (ground (arith, e))
  boot_chosen-BootsFile law w path none chosen message e = absurd (ground (arith, e))

  -- On a card that is read in order, a selection is armed only with the whole kernel file: the
  -- staging buffer held exactly the file's bytes, at least one and no more than the buffer has, when
  -- they were handed to BootImageWithDefaults with the string of the selected entry.
  pub boot_selection-BootsFile :
      (law : ReadsInOrder fs) (w : MenuWorld ms.Heap cl.Boot fs.Card)
      → (menu : Menu) (path : Bytes) (index : ℕ) (message : BootMessage)
      → (boot_selection ms cl fs w menu path index).1 ≡ armed message
      → (string : Bytes) × (get_string menu index ≡ some string)
        × BootsFile
            (with_image_buffer ms cl fs w)
            (boot_selection ms cl fs w menu path index).0
            (file_contents law w.card path)
            string
            message
  unfolding boot_selection
  boot_selection-BootsFile law w menu path index message e =
      boot_chosen-BootsFile law w path (get_label menu index) (get_string menu index) message e
