-- ===== src/Tftp/Session.antt =====
-- The TFTP daemon as a step relation: it may make the calls in any order, but follows `FileClose`
-- at once by `UpdateStatus` with the verdict of the transfer.
use rapi_bootloader.Base.{ℕ, ◌≤◌, ◌<◌, ◌≡◌, sym, ◌∙◌, subst, ◌≢◌, false, some, arith, length, Bytes}
use rapi_bootloader.Circle.{MemorySystem, ChainLoader}
use rapi_bootloader.FatFs.{FatFs}
use rapi_bootloader.Tftp.Create.{file_open, file_create}
use rapi_bootloader.Tftp.Transfer.{flush_write_buf, file_read, file_write}
use rapi_bootloader.Tftp.Finish.{file_close, update_status}
use rapi_bootloader.Tftp.Invariant.{
  IsBounded, file_open-IsBounded, file_create-IsBounded, file_write-IsBounded, file_close-IsBounded,
  update_status-IsBounded,
}
use rapi_bootloader.Tftp.{
  mode_kernel, Status, status_write_completed, status_other, write_buf_size, TftpWorld,
}

module _ (ms : MemorySystem) (cl : ChainLoader ms.Heap) (fs : FatFs) where
  pub data DaemonStep (w : TftpWorld ms cl fs) : TftpWorld ms cl fs → Type 0 where
    opens : (name : Bytes) → DaemonStep w (file_open ms cl fs w name).0
    creates : (name : Bytes) → DaemonStep w (file_create ms cl fs w name).0
    reads : (count : ℕ) → DaemonStep w (file_read ms cl fs w count).0
    writes :
        (block : Bytes)
        → length block ≤ write_buf_size
        → DaemonStep w (file_write ms cl fs w block).0
    reports : (status : Status) → DaemonStep w (update_status ms cl fs w status)
    finishes :
        (status : Status) (closed : TftpWorld ms cl fs)
        → file_close ms cl fs w ≡ some closed
        → status ≢ status_other
        → DaemonStep w (update_status ms cl fs closed status)

  pub data Reach (s : TftpWorld ms cl fs) : TftpWorld ms cl fs → Type 0 where
    here : Reach s s
    next : {t u : TftpWorld ms cl fs} → Reach s t → DaemonStep t u → Reach s u

  -- What holds between the daemon's calls.
  pub record IsIdle (w : TftpWorld ms cl fs) : Type 0 where
    pub bounded : IsBounded w.server
    pub not_closed : w.server.kernel_closed ≡ false

  file_read-IsIdle :
      (w : TftpWorld ms cl fs) (count : ℕ) → IsIdle w → IsIdle (file_read ms cl fs w count).0
  unfolding file_read
  file_read-IsIdle w count h =
      let b = h.bounded in
      record {
        bounded = record {
          write_fill = ground (arith, b.write_fill);
          inject_room = ground (arith, b.inject_room);
          kernel_room = λ e. ground (arith, b.kernel_room);
        };
        not_closed = ground (arith, h.not_closed);
      }

  closed-file_open :
      (w : TftpWorld ms cl fs) (name : Bytes)
      → (file_open ms cl fs w name).0.server.kernel_closed ≡ w.server.kernel_closed
  unfolding file_open
  closed-file_open w name = ground arith

  closed-file_create :
      (w : TftpWorld ms cl fs) (name : Bytes)
      → (file_create ms cl fs w name).0.server.kernel_closed ≡ w.server.kernel_closed
  unfolding file_create
  closed-file_create w name = ground arith

  closed-file_write :
      (w : TftpWorld ms cl fs) (block : Bytes)
      → (file_write ms cl fs w block).0.server.kernel_closed ≡ w.server.kernel_closed
  unfolding file_write flush_write_buf
  closed-file_write w block = ground arith

  closed-update_status :
      (w : TftpWorld ms cl fs) (status : Status)
      → status ≢ status_other
      → (update_status ms cl fs w status).server.kernel_closed ≡ false
  unfolding update_status
  closed-update_status w status h = ground arith

  update_status_idle :
      (w : TftpWorld ms cl fs) (status : Status)
      → w.server.kernel_closed ≡ false
      → update_status ms cl fs w status ≡ w
  unfolding update_status
  update_status_idle w status e = rw e

  -- Every call of the daemon keeps the bounds, and leaves no verdict open.
  pub DaemonStep-IsIdle : {w w' : TftpWorld ms cl fs} → DaemonStep w w' → IsIdle w → IsIdle w'
  DaemonStep-IsIdle {w} (opens name) h = record {
    bounded = file_open-IsBounded ms cl fs w name h.bounded;
    not_closed = closed-file_open w name ∙ h.not_closed;
  }
  DaemonStep-IsIdle {w} (creates name) h = record {
    bounded = file_create-IsBounded ms cl fs w name h.bounded;
    not_closed = closed-file_create w name ∙ h.not_closed;
  }
  DaemonStep-IsIdle {w} (reads count) h = file_read-IsIdle w count h
  DaemonStep-IsIdle {w} (writes block small) h = record {
    bounded = file_write-IsBounded ms cl fs w block small h.bounded;
    not_closed = closed-file_write w block ∙ h.not_closed;
  }
  DaemonStep-IsIdle {w} (reports status) h =
      subst IsIdle (sym (update_status_idle w status h.not_closed)) h
  DaemonStep-IsIdle {w} (finishes status closed e final) h = record {
    bounded =
        update_status-IsBounded ms cl fs closed status
          (file_close-IsBounded ms cl fs w closed h.bounded e);
    not_closed = closed-update_status closed status final;
  }

  -- In every state that the daemon reaches from an idle one, by any sequence of calls with blocks
  -- of at most the write buffer's size, no closed kernel waits for a verdict, the write buffer and
  -- the injected text are within their arrays, and a kernel transfer has a buffer and an offset
  -- within it.
  pub Reach-IsIdle : {w w' : TftpWorld ms cl fs} → IsIdle w → Reach w w' → IsIdle w'
  Reach-IsIdle h here = h
  Reach-IsIdle h (next r step) = DaemonStep-IsIdle step (Reach-IsIdle h r)

  -- What a step that arms a boot must have been: the completed verdict on a kernel transfer.
  pub record Completes (w w' : TftpWorld ms cl fs) : Type 0 where
    pub closed : TftpWorld ms cl fs
    pub closes : file_close ms cl fs w ≡ some closed
    pub completed : w' ≡ update_status ms cl fs closed status_write_completed
    pub was_kernel : w.server.mode ≡ mode_kernel
    pub not_empty : 0 < w.server.current_offset
    pub in_buffer : w.server.current_offset ≤ w.server.max_kernel_size
    pub has_buffer : w.server.kernel_buffer ≢ 0
    pub arms : cl.armed w'.machine.boot ≡ some (w.server.kernel_buffer, w.server.current_offset)
