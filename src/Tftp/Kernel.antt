-- ===== src/Tftp/Kernel.antt =====
-- A kernel push: what the staging buffer holds after each block, and what is booted at its end.
use mathlib.Core.List.{append-nil, append_assoc}
use rapi_bootloader.Base.{
  ℕ, ◌+◌, ◌%◌, ◌^◌, ◌≤◌, ◌<◌, ◌≡◌, refl, ap, ◌∙◌, subst, ◌≢◌, true, Option, none, some, List, [],
  ◌∷◌, ◌++◌, arith, length, length-append, Bytes,
}
use rapi_bootloader.Circle.{MemorySystem, ChainLoader}
use rapi_bootloader.FatFs.{FatFs}
use rapi_bootloader.Memory.{read, write}
use rapi_bootloader.Memory.Laws.{read-write_behind}
use rapi_bootloader.Tftp.Buffers.{fnv1a, fnv1a-append}
use rapi_bootloader.Tftp.Create.{file_create}
use rapi_bootloader.Tftp.Transfer.{file_write}
use rapi_bootloader.Tftp.{mode_kernel, fnv_offset_basis, TftpWorld}

-- All the blocks in order.
abbrev pub concat : List Bytes → Bytes
concat [] = []
concat (b ∷ bs) = b ++ concat bs

module _ (ms : MemorySystem) (cl : ChainLoader ms.Heap) (fs : FatFs) where
  -- `data` is what the transfer has received so far.
  pub record Staged (w : TftpWorld ms cl fs) (received : Bytes) : Type 0 where
    pub receiving : w.server.mode ≡ mode_kernel
    pub offset : w.server.current_offset ≡ length received
    pub bytes : read w.machine.memory w.server.kernel_buffer (length received) ≡ received
    pub hash : w.server.kernel_hash ≡ fnv1a fnv_offset_basis received
    pub room : length received ≤ w.server.max_kernel_size

  -- The daemon's calls of `FileWrite`, up to the first that is refused.
  unfoldable pub write_blocks : TftpWorld ms cl fs → List Bytes → Option (TftpWorld ms cl fs)
  write_blocks w [] = some w
  write_blocks w (b ∷ bs) =
      let rest = write_blocks (file_write ms cl fs w b).0 bs in
      elim (file_write ms cl fs w b).1 [ none ↦ none | some n ↦ rest ]

  -- The world after a block that is taken.
  abbrev after_block : TftpWorld ms cl fs → Bytes → TftpWorld ms cl fs
  after_block w block = record w {
    machine = record w.machine {
      memory = write w.machine.memory (w.server.kernel_buffer + w.server.current_offset) block;
    };
    server = record w.server {
      kernel_hash = fnv1a w.server.kernel_hash block;
      current_offset = w.server.current_offset + length block;
    };
  }

  file_write-after_block :
      (w : TftpWorld ms cl fs) (block : Bytes)
      → w.server.mode ≡ mode_kernel
      → w.server.current_offset + length block ≤ w.server.max_kernel_size
      → w.server.max_kernel_size < 2 ^ 32
      → file_write ms cl fs w block ≡ (after_block w block, some (length block))
  unfolding file_write
  file_write-after_block w block mode fits small =
      let e : (w.server.current_offset + length block) % 2 ^ 32
          ≡ w.server.current_offset + length block =
        omega arith in
      rw (mode, e, file_write) (ground arith)

  after_block-Staged :
      (w : TftpWorld ms cl fs) (received block : Bytes)
      → Staged w received
      → length received + length block ≤ w.server.max_kernel_size
      → Staged (after_block w block) (received ++ block)
  after_block-Staged w received block s fits = record {
    receiving = s.receiving;
    offset = rw (length-append received block, s.offset);
    bytes =
        rw s.offset
          (read-write_behind w.machine.memory w.server.kernel_buffer received block s.bytes);
    hash = rw (s.hash, fnv1a-append fnv_offset_basis received block);
    room = rw (length-append received block) fits;
  }

  -- What a kernel transfer leaves alone, from its creation on.
  pub record Keeps (w w' : TftpWorld ms cl fs) : Type 0 where
    pub same_buffer : w'.server.kernel_buffer ≡ w.server.kernel_buffer
    pub same_max : w'.server.max_kernel_size ≡ w.server.max_kernel_size
    pub same_pending : w'.server.inject_pending ≡ w.server.inject_pending
    pub same_text : w'.server.inject_text ≡ w.server.inject_text
    pub same_boot : w'.machine.boot ≡ w.machine.boot

  write_blocks_step :
      (w w' : TftpWorld ms cl fs) (n : ℕ) (b : Bytes) (bs : List Bytes)
      → file_write ms cl fs w b ≡ (w', some n)
      → write_blocks w (b ∷ bs) ≡ write_blocks w' bs
  unfolding write_blocks
  write_blocks_step w w' n b bs e =
      rw (e, write_blocks) (ap (λ (r : TftpWorld ms cl fs × Option ℕ). write_blocks r.0 bs) e)

  Keeps-after_block :
      (w w' : TftpWorld ms cl fs) (b : Bytes) → Keeps (after_block w b) w' → Keeps w w'
  Keeps-after_block w w' b k = record {
    same_buffer = k.same_buffer;
    same_max = k.same_max;
    same_pending = k.same_pending;
    same_text = k.same_text;
    same_boot = k.same_boot;
  }

  Keeps-refl : (w : TftpWorld ms cl fs) → Keeps w w
  Keeps-refl w = record {
    same_buffer = refl;
    same_max = refl;
    same_pending = refl;
    same_text = refl;
    same_boot = refl;
  }

  -- Blocks that fit are all taken, and the buffer then holds them in order.
  pub write_blocks-Staged :
      (blocks : List Bytes) (w : TftpWorld ms cl fs) (received : Bytes)
      → Staged w received
      → length (received ++ concat blocks) ≤ w.server.max_kernel_size
      → w.server.max_kernel_size < 2 ^ 32
      → (w' : TftpWorld ms cl fs) × (write_blocks w blocks ≡ some w')
        × Staged w' (received ++ concat blocks)
        × Keeps w w'
  unfolding write_blocks
  write_blocks-Staged [] w received s fits small = (w, refl, rw append-nil s, Keeps-refl w)
  write_blocks-Staged (b ∷ bs) w received s fits small =
      let total = length-append received (b ++ concat bs) in
      let tail = length-append b (concat bs) in
      let taken = file_write-after_block w b s.receiving (omega (arith, s.offset)) small in
      let s' = after_block-Staged w received b s (omega arith) in
      let (w', runs, staged, keeps) =
        write_blocks-Staged bs (after_block w b) (received ++ b) s'
          (rw (append_assoc received b (concat bs)) fits) small in
      (
        w',
        write_blocks_step w (after_block w b) (length b) b bs taken ∙ runs,
        subst (Staged w') (append_assoc received b (concat bs)) staged,
        Keeps-after_block w w' b keeps,
      )

  pub file_create-Staged :
      (w : TftpWorld ms cl fs) (name : Bytes)
      → let created = file_create ms cl fs w name in
        created.1 ≡ true
        → created.0.server.mode ≡ mode_kernel
        → Staged created.0 []
          × (created.0.server.kernel_buffer ≢ 0)
          × (created.0.server.max_kernel_size ≡ w.server.max_kernel_size)
          × (created.0.server.inject_pending ≡ w.server.inject_pending)
          × (created.0.server.inject_text ≡ w.server.inject_text)
          × (created.0.machine.boot ≡ w.machine.boot)
  unfolding file_create read fnv1a
  file_create-Staged w name ok kernel = ground arith
