-- ===== src/HttpBoot.antt =====
-- network-loader/httpbootserver.cpp, `GetContent`: the pages of the boot server and its upload form.
-- Circle's HTTP daemon splits a request into its path and the parts of a multipart form.
pub mod Order
pub mod Boots
pub mod Enters
use rapi_bootloader.Base.{
  ℕ, ◌-◌, ◌/◌, Bool, true, ◌&&◌, ◌||◌, some, List, [], ◌∷◌, ltb, ◌==◌, if◌then◌else◌, length, take,
  Bytes, codes, equal, starts_with,
}
use rapi_bootloader.DefaultsBlock.{defaults_buffer_bytes}
use rapi_bootloader.Memory.{write}
use rapi_bootloader.Circle.{MemorySystem, Machine, ChainLoader}
use rapi_bootloader.ChainBoot.StageAlloc.{stage_alloc}
use rapi_bootloader.BootMenu.{c_str}
use rapi_bootloader.BootImage.{boot_image_with_defaults, boot_message_text}

-- What `GetMultipartFormPart` gives: the header, a C string, and the data.
pub record Part : Type 0 where
  pub header : Bytes
  pub data_bytes : Bytes

-- The generated pages. `index_page` formats the message, the version and the machine's name.
pub record Pages : Type 0 where
  pub index_page : Bytes → Bytes
  pub style : Bytes
  pub favicon : Bytes

-- `strstr (text, part) != 0`
unfoldable pub contains : Bytes → Bytes → Bool
contains part [] = starts_with part []
contains part (c ∷ cs) = starts_with part (c ∷ cs) || contains part cs

unfoldable pub is_kernel_part : Part → Bool
unfolding contains
is_kernel_part p =
    contains (codes "name=\"kernelimg\"") p.header
    && (contains (codes "filename=\"kernel") p.header
        && (contains (codes ".img\"") p.header && ltb 0 (length p.data_bytes)))

unfoldable pub is_defaults_part : Part → Bool
unfolding contains
is_defaults_part p = contains (codes "name=\"defaults\"") p.header

abbrev pub select_message : Bytes
select_message =
    codes
      "Select the kernel image file to boot, optionally enter ABI parameters, and press the boot button!"

abbrev pub invalid_message : Bytes
invalid_message = codes "Invalid request, or out of memory staging the image"

-- The result of `GetContent`: the content with its type, or a status.
pub data Answer : Type 0 where
  http_ok : Bytes → Bytes → Answer
  http_not_found http_internal_server_error : Answer

-- The content, if the buffer of the daemon holds it.
unfoldable pub with_content : ℕ → Bytes → Bytes → Answer
with_content max content_type content =
    if ltb max (length content) then http_internal_server_error else http_ok content_type content

module _ (ms : MemorySystem) (cl : ChainLoader ms.Heap) where
  -- What is collected from a form: the staged image, null where there is none, and the C string in
  -- the buffer `Defaults`.
  pub record Form : Type 0 where
    pub machine : Machine ms.Heap cl.Boot
    pub kernel_image : ℕ
    pub kernel_length : ℕ
    pub defaults : Bytes

  unfoldable pub stage_kernel : Form → Bytes → Form
  stage_kernel f image =
      let (heap, at) = stage_alloc ms f.machine.heap (length image) in
      if at == 0
      then record f { machine = record f.machine { heap = heap }; kernel_image = 0 }
      else record f {
        machine = record f.machine { heap = heap; memory = write f.machine.memory at image };
        kernel_image = at;
        kernel_length = length image;
      }

  unfoldable pub take_part : Form → Part → Form
  unfolding stage_kernel
  take_part f p =
      if is_kernel_part p
      then stage_kernel f p.data_bytes
      else if is_defaults_part p
      then record f { defaults = c_str (take (defaults_buffer_bytes - 1) p.data_bytes) }
      else f

  unfoldable pub take_parts : Form → List Part → Form
  unfolding take_part
  take_parts f [] = f
  take_parts f (p ∷ parts) = take_parts (take_part f p) parts

  abbrev pub empty_form : Machine ms.Heap cl.Boot → Form
  empty_form m = record { machine = m; kernel_image = 0; kernel_length = 0; defaults = [] }

  -- The boot of what a form brought, and the message.
  unfoldable pub boot_form : Form → Machine ms.Heap cl.Boot × Bytes
  boot_form f =
      let (machine, message) =
        boot_image_with_defaults cl f.machine f.kernel_image f.kernel_length (some f.defaults) in
      if f.kernel_image == 0
      then (f.machine, invalid_message)
      else (machine, boot_message_text message)

  unfoldable pub submit_form : Machine ms.Heap cl.Boot → List Part → Machine ms.Heap cl.Boot × Bytes
  unfolding boot_form take_parts
  submit_form m [] = (m, select_message)
  submit_form m (p ∷ parts) = boot_form (take_parts (empty_form m) (p ∷ parts))

  -- The machine, and the flag `g_bRebootRequested`.
  pub record HttpWorld : Type 0 where
    pub machine : Machine ms.Heap cl.Boot
    pub reboot_requested : Bool

  -- `GetContent` for a path, the parts of a form and the size of the daemon's buffer.
  unfoldable pub get_content : Pages → HttpWorld → Bytes → List Part → ℕ → HttpWorld × Answer
  unfolding submit_form with_content
  get_content pages w path parts max =
      let (machine, message) = submit_form w.machine parts in
      if equal path (codes "/") || equal path (codes "/index.html")
      then (
        record w { machine = machine },
        with_content max (codes "text/html; charset=iso-8859-1") (pages.index_page message),
      )
      else if equal path (codes "/style.css")
      then (w, with_content max (codes "text/css") pages.style)
      else if equal path (codes "/reboot")
      then (
        record w { reboot_requested = true },
        with_content max (codes "text/plain") (codes "Rebooting."),
      )
      else if equal path (codes "/favicon.ico")
      then (w, with_content max (codes "image/x-icon") pages.favicon)
      else (w, http_not_found)
