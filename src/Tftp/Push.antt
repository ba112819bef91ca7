-- ===== src/Tftp/Push.antt =====
-- A whole push: `FileCreate`, `FileWrite` for each block, `FileClose`, and the verdict.
use rapi_bootloader.Base.{
  ◌^◌, ◌≤◌, ◌<◌, ◌≡◌, refl, sym, ◌∙◌, ◌≢◌, true, Option, none, some, List, [], arith, ltb,
  if◌then◌else◌, length, Bytes,
}
use rapi_bootloader.BootImage.{boot_image_with_defaults}
use rapi_bootloader.BootImage.Laws.{boot_image_armed}
use rapi_bootloader.Circle.{MemorySystem, ChainLoader}
use rapi_bootloader.DefaultsBlock.{defaults_buffer_bytes}
use rapi_bootloader.FatFs.{FatFs}
use rapi_bootloader.Memory.{read, c_string}
use rapi_bootloader.Tftp.Buffers.{fnv1a}
use rapi_bootloader.Tftp.Create.{file_create}
use rapi_bootloader.Tftp.Finish.{file_close, update_status}
use rapi_bootloader.Tftp.Kernel.{
  concat, Staged, write_blocks, write_blocks-Staged, file_create-Staged,
}
use rapi_bootloader.Tftp.{
  mode_none, mode_kernel, Status, status_write_completed, status_write_aborted, fnv_offset_basis,
  TftpWorld,
}

module _ (ms : MemorySystem) (cl : ChainLoader ms.Heap) (fs : FatFs) where
  -- The defaults-string that the next kernel push will be stamped with.
  abbrev pub pending_defaults : TftpWorld ms cl fs → Option Bytes
  pending_defaults w =
      if w.server.inject_pending
      then some (c_string w.server.inject_text 0 defaults_buffer_bytes)
      else none

  -- The calls of a push up to `FileClose`; `none` if a call is refused.
  unfoldable pub push_kernel : TftpWorld ms cl fs → Bytes → List Bytes → Option (TftpWorld ms cl fs)
  push_kernel w name blocks = elim (write_blocks ms cl fs (file_create ms cl fs w name).0 blocks) [
    | none ↦ none
    | some w' ↦ file_close ms cl fs w'
  ]

  -- The world after `FileClose` of a kernel transfer that holds `image`.
  pub record Closed (w : TftpWorld ms cl fs) (image : Bytes) : Type 0 where
    pub idle : w.server.mode ≡ mode_none
    pub buffer : w.server.kernel_buffer ≢ 0
    pub size : w.server.current_offset ≡ length image
    pub bytes : read w.machine.memory w.server.kernel_buffer (length image) ≡ image
    pub hash : w.server.kernel_hash ≡ fnv1a fnv_offset_basis image
    pub closed : w.server.kernel_closed ≡ true

  file_close-Closed :
      (w : TftpWorld ms cl fs) (image : Bytes)
      → Staged ms cl fs w image
      → 0 < length image
      → w.server.kernel_buffer ≢ 0
      → (w' : TftpWorld ms cl fs) × (file_close ms cl fs w ≡ some w')
        × Closed w' image
        × (w'.machine ≡ w.machine)
        × (pending_defaults w' ≡ pending_defaults w)
  unfolding file_close
  file_close-Closed w image s pos buffer = (
    record w {
      server = record w.server { kernel_closed = ltb 0 w.server.current_offset; mode = mode_none };
    },
    ground (arith, s.receiving),
    record {
      idle = refl;
      buffer = buffer;
      size = s.offset;
      bytes = s.bytes;
      hash = s.hash;
      closed = ground (arith, s.offset);
    },
    refl,
    refl,
  )

  -- With a maximum kernel size below 2 ^ 32: the blocks of a push whose creation was accepted as a
  -- kernel's, which are not all empty and fit the maximum size, are all taken. After `FileClose`
  -- the staging buffer holds them in order, the hash is FNV-1a of the image, the pending defaults
  -- are as before, and nothing has been armed.
  pub push_kernel-Closed :
      (w : TftpWorld ms cl fs) (name : Bytes) (blocks : List Bytes)
      → (file_create ms cl fs w name).1 ≡ true
      → (file_create ms cl fs w name).0.server.mode ≡ mode_kernel
      → 0 < length (concat blocks)
      → length (concat blocks) ≤ w.server.max_kernel_size
      → w.server.max_kernel_size < 2 ^ 32
      → (w' : TftpWorld ms cl fs) × (push_kernel w name blocks ≡ some w')
        × Closed w' (concat blocks)
        × (w'.machine.boot ≡ w.machine.boot)
        × (pending_defaults w' ≡ pending_defaults w)
  unfolding push_kernel
  push_kernel-Closed w name blocks ok kernel pos fits small =
      let (s, buffer, max, pending, text, boot) = file_create-Staged ms cl fs w name ok kernel in
      let created = (file_create ms cl fs w name).0 in
      let (w1, runs, staged, keeps) =
        write_blocks-Staged ms cl fs blocks created [] s (rw max fits) (rw max small) in
      let (w2, closes, is_closed, machine, defaults) =
        file_close-Closed w1 (concat blocks) staged pos (λ e. buffer (sym keeps.same_buffer ∙ e)) in
      (
        w2,
        rw (runs, push_kernel) closes,
        is_closed,
        rw machine (keeps.same_boot ∙ boot),
        defaults ∙ rw (keeps.same_pending, keeps.same_text, pending, text),
      )

  -- When a pushed image waits for its verdict, a completed verdict boots exactly that image, with
  -- the pending defaults, and disarms them; an aborted verdict leaves the machine and the pending
  -- defaults alone. Either way the push is over: a second verdict changes nothing.
  pub update_status-Closed :
      (w : TftpWorld ms cl fs) (image : Bytes)
      → Closed w image
      → let done = update_status ms cl fs w status_write_completed in
        let aborted = update_status ms cl fs w status_write_aborted in
        (done.machine
          ≡ (boot_image_with_defaults cl w.machine w.server.kernel_buffer
              (length image)
              (pending_defaults w)).0)
        × (cl.armed done.machine.boot ≡ some (w.server.kernel_buffer, length image))
        × (pending_defaults done ≡ none)
        × (aborted.machine ≡ w.machine)
        × (pending_defaults aborted ≡ pending_defaults w)
        × ((status : Status) → update_status ms cl fs done status ≡ done)
        × ((status : Status) → update_status ms cl fs aborted status ≡ aborted)
  unfolding update_status
  update_status-Closed w image c = (
    rw (c.closed, c.size),
    rw (c.closed, c.size) (boot_image_armed cl w.machine _ _ _ c.buffer),
    rw c.closed,
    rw c.closed,
    rw c.closed,
    (λ status. rw c.closed),
    (λ status. rw c.closed),
  )
