-- ===== src/MenuLoader/Selection.antt =====
-- menu-loader/kernel.cpp, `CKernel::BootSelection`: the kernel image is read from the card into the
-- staging buffer, and booted with the entry's defaults-string.
use rapi_bootloader.Base.{
  ℕ, zero, suc, ◌+◌, ◌-◌, Bool, true, not, ◌&&◌, ◌||◌, Option, some, ltb, leb, ◌==◌, if◌then◌else◌,
  length, Bytes,
}
use rapi_bootloader.BootImage.{BootMessage, boot_image_with_defaults}
use rapi_bootloader.FatFs.{FatFs, FResult, is_ok, fa_read}
use rapi_bootloader.BootMenu.{Menu, get_label, get_string}
use rapi_bootloader.ChainBoot.StageAlloc.{stage_alloc}
use rapi_bootloader.Circle.{MemorySystem, Machine, ChainLoader}
use rapi_bootloader.MenuLoader.{Picker}
use rapi_bootloader.Memory.{Memory, write}

-- `Fatal` never returns: it says why on the screen, and halts.
pub data Reason : Type 0 where
  no_entry out_of_memory size_out_of_range read_error : Reason
  cannot_open : FResult → Reason

pub data Outcome : Type 0 where
  halted : Reason → Outcome
  armed : BootMessage → Outcome

-- 16 MB per read
abbrev pub max_chunk : ℕ
max_chunk = 0x100_0000

module _ (fs : FatFs) where
  -- The variables of the loop that reads the image.
  pub record Loading : Type 0 where
    pub memory : Memory
    pub card : fs.Card
    pub file : fs.File
    pub offset : ℕ
    pub read_ok : Bool

  -- One read, with `nChunk` bytes asked for.
  unfoldable pub read_chunk : ℕ → ℕ → Loading → Loading
  read_chunk buffer size l =
      let left = size - l.offset in
      let chunk = if ltb max_chunk left then max_chunk else left in
      let (card, file, result, bytes) = fs.f_read l.card l.file chunk in
      record {
        memory = write l.memory (buffer + l.offset) bytes;
        card = card;
        file = file;
        offset = if is_ok result then l.offset + length bytes else l.offset;
        read_ok = is_ok result && not (length bytes == 0);
      }

  -- The loop, on fuel: each read that does not end it gives at least one byte.
  unfoldable pub read_image : ℕ → ℕ → ℕ → Loading → Loading
  read_image zero buffer size l = l
  read_image (suc fuel) buffer size l =
      let read = read_chunk buffer size l in
      let rest = read_image fuel buffer size read in
      if leb size l.offset then l else if read.read_ok then rest else read

pub record MenuWorld (Heap Boot Card : Type 0) : Type 0 where
  pub picker : Picker
  pub machine : Machine Heap Boot
  pub card : Card
  pub image_buffer : ℕ

module _ (ms : MemorySystem) (cl : ChainLoader ms.Heap) (fs : FatFs) where
  -- The staging buffer, allocated at the first selection.
  unfoldable pub with_image_buffer :
      MenuWorld ms.Heap cl.Boot fs.Card → MenuWorld ms.Heap cl.Boot fs.Card
  with_image_buffer w =
      let (heap, buffer) = stage_alloc ms w.machine.heap ms.kernel_max_size in
      if w.image_buffer == 0
      then record w { machine = record w.machine { heap = heap }; image_buffer = buffer }
      else w

  -- From the opened file on: the size check, the reading, and the boot.
  unfoldable pub boot_file :
      MenuWorld ms.Heap cl.Boot fs.Card
      → fs.File
      → Bytes
      → MenuWorld ms.Heap cl.Boot fs.Card × Outcome
  boot_file w file string =
      let size = fs.f_size file in
      let first : Loading fs = record {
        memory = w.machine.memory;
        card = w.card;
        file = file;
        offset = 0;
        read_ok = true;
      } in
      let loaded = read_image fs size w.image_buffer size first in
      let closed = record w {
        card = fs.f_close loaded.card loaded.file;
        machine = record w.machine { memory = loaded.memory };
      } in
      let (machine, message) =
        boot_image_with_defaults cl closed.machine w.image_buffer size (some string) in
      if size == 0 || ltb ms.kernel_max_size size
      then (record w { card = fs.f_close w.card file }, halted size_out_of_range)
      else if not loaded.read_ok || not (loaded.offset == size)
      then (closed, halted read_error)
      else (record closed { machine = machine }, armed message)

  -- With an entry's string: the buffer and the file.
  unfoldable pub boot_entry :
      MenuWorld ms.Heap cl.Boot fs.Card
      → Bytes
      → Bytes
      → MenuWorld ms.Heap cl.Boot fs.Card × Outcome
  unfolding with_image_buffer boot_file
  boot_entry w path string =
      let staged = with_image_buffer w in
      let (card, result, file) = fs.f_open w.card path fa_read in
      let booted = boot_file (record staged { card = card }) file string in
      if staged.image_buffer == 0
      then (staged, halted out_of_memory)
      else if not (is_ok result)
      then (record staged { card = card }, halted (cannot_open result))
      else booted

  -- With what the menu gave for the label and the string.
  unfoldable pub boot_chosen :
      MenuWorld ms.Heap cl.Boot fs.Card
      → Bytes
      → Option Bytes
      → Option Bytes
      → MenuWorld ms.Heap cl.Boot fs.Card × Outcome
  unfolding boot_entry
  boot_chosen w path (some label) (some string) = boot_entry w path string
  boot_chosen w path _ _ = (w, halted no_entry)

  -- `BootSelection`, with the board's `PLATFORM_KERNEL_PATH`.
  unfoldable pub boot_selection :
      MenuWorld ms.Heap cl.Boot fs.Card
      → Menu
      → Bytes
      → ℕ
      → MenuWorld ms.Heap cl.Boot fs.Card × Outcome
  unfolding boot_chosen
  boot_selection w menu path index =
      boot_chosen w path (get_label menu index) (get_string menu index)
