-- ===== src/RapiChainboot.antt =====
-- chainboot/rapi_chainboot.cpp on the Pi 5: its static variables, the capture of the device tree, and
-- the arming of a chain-boot. Circle's machine information and its device-tree parser, the allocator
-- behind `new`, and the address of the compiled stub are parameters.
pub mod Handoff
pub mod Copy
pub mod DeviceTree
pub mod Entry
pub mod Boots
pub mod Caches
pub mod Refines
use rapi_bootloader.Base.{
  ℕ, zero, suc, ◌+◌, ◌*◌, ◌/◌, Bool, true, false, not, ◌&&◌, ◌||◌, ltb, leb, ◌==◌, if◌then◌else◌,
  Bytes, codes,
}
use rapi_bootloader.ChainBoot.StageAlloc.{stage_alloc}
use rapi_bootloader.Circle.{MemorySystem, Machine}
use rapi_bootloader.Memory.{Memory, read, write}

-- Circle's `CMachineInfo` and `CDeviceTreeBlob`: pointers, null where there is no such thing. The
-- parser reads the memory.
pub record MachineInfo : Type 0 where
  pub get_dtb : ℕ
  pub find_node : Memory → Bytes → ℕ
  pub find_property : Memory → ℕ → Bytes → ℕ
  pub get_property_value_length : Memory → ℕ → ℕ
  pub get_property_value : Memory → ℕ → ℕ

abbrev pub rapi_stub_max_size : ℕ
rapi_stub_max_size = 0x400

abbrev pub fdt_magic : ℕ
fdt_magic = 0xd00dfeed

abbrev pub fdt_last_comp_version : ℕ
fdt_last_comp_version = 16

abbrev pub fdt_word_magic : ℕ
fdt_word_magic = 0

abbrev pub fdt_word_totalsize : ℕ
fdt_word_totalsize = 1

abbrev pub fdt_word_last_comp_ver : ℕ
fdt_word_last_comp_ver = 6

abbrev pub fdt_max_size : ℕ
fdt_max_size = 0x10_0000

abbrev pub dtb_ethernet_node : Bytes
dtb_ethernet_node = codes "/axi/pcie@1000120000/rp1/ethernet@100000"

abbrev pub dtb_mac_property : Bytes
dtb_mac_property = codes "local-mac-address"

-- The static variables.
pub record Statics : Type 0 where
  pub kernel_image : ℕ
  pub kernel_size : ℕ
  pub stub : ℕ
  pub loader_main_returned : Bool
  pub dtb_copy : ℕ
  pub dtb_size : ℕ

abbrev pub initial : Statics
initial = record {
  kernel_image = 0;
  kernel_size = 0;
  stub = 0;
  loader_main_returned = false;
  dtb_copy = 0;
  dtb_size = 0;
}

-- `be2le32` of a word of the header.
unfoldable pub be_word : Memory → ℕ → ℕ → ℕ
be_word m blob word =
    let at = blob + 4 * word in m at * 16777216 + m (at + 1) * 65536 + m (at + 2) * 256 + m (at + 3)

-- A little-endian number of `n` bytes, such as a pointer of 8.
unfoldable pub le_number : Memory → ℕ → ℕ → ℕ
le_number m at zero = 0
le_number m at (suc n) = m at + 256 * le_number m (at + 1) n

-- The header is that of a device tree of a sensible size.
unfoldable pub is_device_tree : Memory → ℕ → Bool
is_device_tree m blob =
    be_word m blob fdt_word_magic == fdt_magic
    && (leb 40 (be_word m blob fdt_word_totalsize)
        && (leb (be_word m blob fdt_word_totalsize) fdt_max_size
            && be_word m blob fdt_word_last_comp_ver == fdt_last_comp_version))

-- The agreement test: the parser's MAC address lies in the blob.
unfoldable pub parser_agrees : MachineInfo → Memory → ℕ → ℕ → Bool
parser_agrees info m blob size =
    let node = info.find_node m dtb_ethernet_node in
    let mac = info.find_property m node dtb_mac_property in
    let value = info.get_property_value m mac in
    not (node == 0)
    && (not (mac == 0)
        && (info.get_property_value_length m mac == 6
            && (leb blob value && leb (value + 6) (blob + size))))

module _ (ms : MemorySystem) (info : MachineInfo) (new_bytes : ms.Heap → ℕ → ms.Heap × ℕ)
    (stub_code : ℕ) where
  -- The copy in staging memory, which has to be addressable by the 32-bit slot.
  unfoldable pub stage_dtb : Machine ms.Heap Statics → ℕ → ℕ → Machine ms.Heap Statics
  stage_dtb m blob size =
      let (heap, copy) = stage_alloc ms m.heap size in
      if copy == 0 || ltb 0x1_0000_0000 (copy + size) then record m { heap = heap } else record m {
        heap = heap;
        memory = write m.memory copy (read m.memory blob size);
        boot = record m.boot { dtb_copy = copy; dtb_size = size };
      }

  -- `CaptureDTB`
  unfoldable pub capture_dtb : Machine ms.Heap Statics → Machine ms.Heap Statics
  capture_dtb m =
      let blob = le_number m.memory info.get_dtb 8 in
      let size = be_word m.memory blob fdt_word_totalsize in
      if not (m.boot.dtb_copy == 0)
      then m
      else if info.get_dtb == 0
      then m
      else if blob == 0 || not (is_device_tree m.memory blob)
      then m
      else if not (parser_agrees info m.memory blob size)
      then m
      else stage_dtb m blob size

  -- The stub's chunk of the heap, aligned to a cache line.
  unfoldable pub with_stub : Machine ms.Heap Statics → Machine ms.Heap Statics
  with_stub m =
      let (heap, chunk) = new_bytes m.heap (rapi_stub_max_size + 63) in
      if m.boot.stub == 0
      then record m { heap = heap; boot = record m.boot { stub = (chunk + 63) / 64 * 64 } }
      else m

  -- `EnableChainBoot`
  unfoldable pub enable_chain_boot : Machine ms.Heap Statics → ℕ → ℕ → Machine ms.Heap Statics
  enable_chain_boot m image image_size =
      let noted = record m {
        boot = record m.boot { kernel_image = image; kernel_size = image_size };
      } in
      let staged = with_stub (capture_dtb noted) in
      record staged {
        memory =
            write staged.memory staged.boot.stub (read staged.memory stub_code rapi_stub_max_size);
      }

-- `RapiChainBootMainReturning`
unfoldable pub main_returning : Statics → Statics
main_returning s = record s { loader_main_returned = true }

-- What `IsChainBootEnabled` comes to: an answer, or the hand-off, which never returns.
pub data Enabled : Type 0 where
  answers : Bool → Enabled
  hands_off : Enabled

unfoldable pub is_chain_boot_enabled : Statics → Enabled
is_chain_boot_enabled s =
    if s.kernel_image == 0
    then answers false
    else if not s.loader_main_returned
    then answers true
    else hands_off
