-- ===== src/Tftp.antt =====
-- network-loader/tftpbootserver.h: the state of the TFTP server, and the world that it acts on.
pub mod Buffers
pub mod Create
pub mod Transfer
pub mod Finish
pub mod Invariant
pub mod Session
pub mod SdWrite
pub mod Kernel
pub mod Push
pub mod Enters
use rapi_bootloader.Base.{ℕ, ◌*◌, Bool, true, false, [], ◌∷◌, Bytes, codes, nul}
use rapi_bootloader.Circle.{MemorySystem, Machine, ChainLoader}
use rapi_bootloader.FatFs.{FatFs}
use rapi_bootloader.Memory.{Memory, write}

pub data Mode : Type 0 where
  mode_none mode_kernel mode_inject mode_sd_write mode_sd_read : Mode

-- The transfer verdicts of the daemon that `UpdateStatus` tells apart.
pub data Status : Type 0 where
  status_write_completed status_write_aborted status_other : Status

abbrev pub is_none : Mode → Bool
is_none mode_none = true
is_none _ = false

-- The reserved upload name.
abbrev pub inject_file_name : Bytes
inject_file_name = codes "inject"

abbrev pub write_buf_size : ℕ
write_buf_size = 1024 * 1024

abbrev pub fnv_offset_basis : ℕ
fnv_offset_basis = 2166136261

abbrev pub fnv_prime : ℕ
fnv_prime = 16777619

-- The members of `CTFTPBootServer`. Pointers are addresses, 0 is null; `inject_text` is the array of
-- 512 characters.
pub record Server (File : Type 0) : Type 0 where
  pub max_kernel_size : ℕ
  pub mode : Mode
  pub kernel_buffer : ℕ
  pub current_offset : ℕ
  pub file : File
  pub kernel_closed : Bool
  pub kernel_hash : ℕ
  pub inject_pending : Bool
  pub inject_fill : ℕ
  pub inject_text : Memory
  pub write_buf : ℕ
  pub write_buf_fill : ℕ

pub record World (Heap Boot Card File : Type 0) : Type 0 where
  pub server : Server File
  pub machine : Machine Heap Boot
  pub card : Card

-- The constructor; `offset` and `file` are what the uninitialised members hold.
unfoldable pub init : {File : Type 0} → ℕ → ℕ → File → Memory → Server File
init max offset file text = record {
  max_kernel_size = max;
  mode = mode_none;
  kernel_buffer = 0;
  current_offset = offset;
  file = file;
  kernel_closed = false;
  kernel_hash = fnv_offset_basis;
  inject_pending = false;
  inject_fill = 0;
  inject_text = write text 0 (nul ∷ []);
  write_buf = 0;
  write_buf_fill = 0;
}

-- The server on a board: its memory system, its chain-boot and its file system.
abbrev pub TftpWorld : (ms : MemorySystem) → ChainLoader ms.Heap → FatFs → Type 0
TftpWorld ms cl fs = World ms.Heap cl.Boot fs.Card fs.File
