-- ===== src/Tftp/SdWrite.antt =====
-- An upload to the card: what the file and the write buffer hold.
use mathlib.Core.List.{append-nil, append_assoc}
use rapi_bootloader.Base.{
  ℕ, ◌+◌, ◌≡◌, refl, sym, ap, ◌∙◌, ◌≢◌, ◌⊎◌, inl, inr, true, some, List, [], ◌∷◌, ◌++◌, arith,
  Option-cases, length, Bytes,
}
use rapi_bootloader.Circle.{MemorySystem, ChainLoader}
use rapi_bootloader.FatFs.{FatFs, is_ok}
use rapi_bootloader.Memory.{read, write}
use rapi_bootloader.Memory.Laws.{read-write_after, length-read, read_none}
use rapi_bootloader.Tftp.Kernel.{concat, write_blocks}
use rapi_bootloader.Tftp.Transfer.{flush_write_buf, file_write}
use rapi_bootloader.Tftp.{mode_sd_write, TftpWorld}

-- What the server relies on: a write that succeeds in full appends its bytes to the file.
pub record WritesAppend (fs : FatFs) : Type 0 where
  pub contents : fs.Card → fs.File → Bytes
  pub appends :
      (card : fs.Card) (file : fs.File) (bytes : Bytes)
      → is_ok (fs.f_write card file bytes).2 ≡ true
      → (fs.f_write card file bytes).3 ≡ length bytes
      → contents (fs.f_write card file bytes).0 (fs.f_write card file bytes).1
        ≡ contents card file ++ bytes

module _ (ms : MemorySystem) (cl : ChainLoader ms.Heap) (fs : FatFs) (law : WritesAppend fs) where
  -- The bytes in the file, then those in the buffer.
  abbrev pub accepted : TftpWorld ms cl fs → Bytes
  accepted w =
      law.contents w.card w.server.file
      ++ read w.machine.memory w.server.write_buf w.server.write_buf_fill

  flush_fill : (w : TftpWorld ms cl fs) → (flush_write_buf ms cl fs w).0.server.write_buf_fill ≡ 0
  unfolding flush_write_buf
  flush_fill w = ground arith

  -- What a flush leaves alone.
  flush_keeps :
      (w : TftpWorld ms cl fs)
      → let flushed = (flush_write_buf ms cl fs w).0 in
        (flushed.server.write_buf ≡ w.server.write_buf)
        × (flushed.server.mode ≡ w.server.mode)
        × (flushed.machine ≡ w.machine)
  unfolding flush_write_buf
  flush_keeps w = ground arith

  -- A flush that succeeds moves the buffer into the file.
  pub contents-flush_write_buf :
      (w : TftpWorld ms cl fs)
      → (flush_write_buf ms cl fs w).1 ≡ true
      → law.contents (flush_write_buf ms cl fs w).0.card (flush_write_buf ms cl fs w).0.server.file
        ≡ accepted w
  unfolding flush_write_buf
  contents-flush_write_buf w h =
      let buffered = read w.machine.memory w.server.write_buf w.server.write_buf_fill in
      ground (
        arith,
        read_none w.machine.memory w.server.write_buf w.server.write_buf_fill,
        append-nil (law.contents w.card w.server.file),
        length-read w.machine.memory w.server.write_buf w.server.write_buf_fill,
        law.appends w.card w.server.file buffered,
      )

  -- The world after a block is put into the buffer.
  abbrev buffer_block : TftpWorld ms cl fs → Bytes → TftpWorld ms cl fs
  buffer_block w block = record w {
    machine = record w.machine {
      memory = write w.machine.memory (w.server.write_buf + w.server.write_buf_fill) block;
    };
    server = record w.server { write_buf_fill = w.server.write_buf_fill + length block };
  }

  accepted-buffer_block :
      (w : TftpWorld ms cl fs) (block : Bytes)
      → accepted (buffer_block w block) ≡ accepted w ++ block
  accepted-buffer_block w block =
      ap (◌++◌ (law.contents w.card w.server.file))
        (read-write_after w.machine.memory w.server.write_buf w.server.write_buf_fill block)
      ∙ sym (append_assoc (law.contents w.card w.server.file) _ block)

  -- An accepted block is either buffered, or buffered after a flush that succeeded.
  file_write_cases :
      (w : TftpWorld ms cl fs) (block : Bytes) (n : ℕ)
      → w.server.mode ≡ mode_sd_write
      → (file_write ms cl fs w block).1 ≡ some n
      → (n ≡ length block)
        × (((file_write ms cl fs w block).0 ≡ buffer_block w block)
            ⊎ (((file_write ms cl fs w block).0 ≡ buffer_block (flush_write_buf ms cl fs w).0 block)
                × ((flush_write_buf ms cl fs w).1 ≡ true)))
  unfolding file_write
  file_write_cases w block n mode h = ground arith

  accepted_empty :
      (w : TftpWorld ms cl fs)
      → w.server.write_buf_fill ≡ 0
      → accepted w ≡ law.contents w.card w.server.file
  accepted_empty w e = ground (
    arith,
    read_none w.machine.memory w.server.write_buf w.server.write_buf_fill,
    append-nil (law.contents w.card w.server.file),
  )

  -- A block that FileWrite takes in an SD upload is appended to what was accepted so far, whether
  -- or not the buffer had to be flushed, and the upload goes on.
  pub accepted-file_write :
      (w : TftpWorld ms cl fs) (block : Bytes) (n : ℕ)
      → w.server.mode ≡ mode_sd_write
      → (file_write ms cl fs w block).1 ≡ some n
      → (n ≡ length block)
        × (accepted (file_write ms cl fs w block).0 ≡ accepted w ++ block)
        × ((file_write ms cl fs w block).0.server.mode ≡ mode_sd_write)
  accepted-file_write w block n mode h =
      let flushed = (flush_write_buf ms cl fs w).0 in
      let (count, cases) = file_write_cases w block n mode h in
      elim cases [
        | inl e ↦ (count, rw e (accepted-buffer_block w block), rw e mode)
        | inr (e, done) ↦ (
          count,
          rw e (
              accepted-buffer_block flushed block
              ∙ ap (λ (bs : Bytes). bs ++ block)
                  (accepted_empty flushed (flush_fill w) ∙ contents-flush_write_buf w done)),
          rw e ((flush_keeps w).1 ∙ mode),
        )
      ]

  accepted-write_blocks :
      (blocks : List Bytes) (w w' : TftpWorld ms cl fs)
      → w.server.mode ≡ mode_sd_write
      → write_blocks ms cl fs w blocks ≡ some w'
      → accepted w' ≡ accepted w ++ concat blocks
  unfolding write_blocks
  accepted-write_blocks [] w w' mode e = ground (arith, append-nil (accepted w))
  accepted-write_blocks (b ∷ bs) w w' mode e = elim (Option-cases (file_write ms cl fs w b).1) [
    | inl refused ↦ cc (rw (refused, write_blocks) at e)
    | inr (n, taken) ↦
        let (count, grown, mode') = accepted-file_write w b n mode taken in
        accepted-write_blocks bs (file_write ms cl fs w b).0 w' mode'
          (rw (taken, write_blocks) at e)
        ∙ rw grown (append_assoc (accepted w) b (concat bs))
  ]

  -- When all the blocks of an SD upload are taken and the flush of FileClose succeeds, the file
  -- holds what was accepted before followed by the blocks in order.
  pub contents-write_blocks :
      (blocks : List Bytes) (w w' : TftpWorld ms cl fs)
      → w.server.mode ≡ mode_sd_write
      → write_blocks ms cl fs w blocks ≡ some w'
      → (flush_write_buf ms cl fs w').1 ≡ true
      → law.contents
          (flush_write_buf ms cl fs w').0.card
          (flush_write_buf ms cl fs w').0.server.file
        ≡ accepted w ++ concat blocks
  contents-write_blocks blocks w w' mode e done =
      contents-flush_write_buf w' done ∙ accepted-write_blocks blocks w w' mode e

  -- A card that never refuses or cuts short a write.
  abbrev pub NeverFails : Type 0
  NeverFails =
      (card : fs.Card) (file : fs.File) (bytes : Bytes)
      → (is_ok (fs.f_write card file bytes).2 ≡ true)
        × ((fs.f_write card file bytes).3 ≡ length bytes)

  flush_done : NeverFails → (w : TftpWorld ms cl fs) → (flush_write_buf ms cl fs w).1 ≡ true
  unfolding flush_write_buf
  flush_done good w =
      let buffered = read w.machine.memory w.server.write_buf w.server.write_buf_fill in
      ground (
        arith,
        good w.card w.server.file buffered,
        length-read w.machine.memory w.server.write_buf w.server.write_buf_fill,
      )

  file_write_taken :
      NeverFails
      → (w : TftpWorld ms cl fs) (block : Bytes) → w.server.mode ≡ mode_sd_write
      → w.server.write_buf ≢ 0
      → ((file_write ms cl fs w block).1 ≡ some (length block))
        × ((file_write ms cl fs w block).0.server.write_buf ≡ w.server.write_buf)
  unfolding file_write
  file_write_taken good w block mode buffer = ground (arith, flush_done good w, flush_keeps w)

  write_blocks_next :
      (w w' : TftpWorld ms cl fs) (b : Bytes) (bs : List Bytes)
      → (file_write ms cl fs w b).1 ≡ some (length b)
      → write_blocks ms cl fs (file_write ms cl fs w b).0 bs ≡ some w'
      → write_blocks ms cl fs w (b ∷ bs) ≡ some w'
  unfolding write_blocks
  write_blocks_next w w' b bs taken e = rw (taken, write_blocks) e

  write_blocks_taken :
      NeverFails
      → (blocks : List Bytes) (w : TftpWorld ms cl fs) → w.server.mode ≡ mode_sd_write
      → w.server.write_buf ≢ 0
      → (w' : TftpWorld ms cl fs) × (write_blocks ms cl fs w blocks ≡ some w')
  unfolding write_blocks
  write_blocks_taken good [] w mode buffer = (w, refl)
  write_blocks_taken good (b ∷ bs) w mode buffer =
      let (taken, same) = file_write_taken good w b mode buffer in
      let mode' = (accepted-file_write w b (length b) mode taken).2 in
      let (w', e) =
        write_blocks_taken good bs (file_write ms cl fs w b).0 mode' (λ z. buffer (sym same ∙ z)) in
      (w', write_blocks_next w w' b bs taken e)

  -- On a card that never fails, an SD upload with a write buffer has every block taken, and after
  -- the flush of FileClose the file holds what was accepted before and then the blocks in order.
  pub write_blocks_total :
      NeverFails
      → (blocks : List Bytes) (w : TftpWorld ms cl fs) → w.server.mode ≡ mode_sd_write
      → w.server.write_buf ≢ 0
      → (w' : TftpWorld ms cl fs) × (write_blocks ms cl fs w blocks ≡ some w')
        × (law.contents
              (flush_write_buf ms cl fs w').0.card
              (flush_write_buf ms cl fs w').0.server.file
            ≡ accepted w ++ concat blocks)
  write_blocks_total good blocks w mode buffer =
      let (w', e) = write_blocks_taken good blocks w mode buffer in
      (w', e, contents-write_blocks blocks w w' mode e (flush_done good w'))
