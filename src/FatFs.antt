-- ===== src/FatFs.antt =====
-- The FatFs interface that the loaders call. `Card` is the mounted volume with its open files.
use rapi_bootloader.Base.{
  ℕ, ◌+◌, Bool, true, false, ◌&&◌, [], ◌∷◌, ◌++◌, ltb, ◌==◌, if◌then◌else◌, length, Bytes,
}

pub data FResult : Type 0 where
  fr_ok fr_no_file fr_no_path fr_denied fr_exist : FResult
  fr_other : ℕ → FResult

abbrev pub is_ok : FResult → Bool
is_ok fr_ok = true
is_ok _ = false

-- `FA_READ`, and `FA_WRITE | FA_CREATE_ALWAYS`
pub data OpenMode : Type 0 where
  fa_read fa_write_create_always : OpenMode

-- `f_read` returns the bytes that it read, at most as many as asked for; `f_write` the number written.
pub record FatFs : Type 1 where
  pub Card : Type 0
  pub File : Type 0
  pub ff_max_lfn : ℕ
  pub f_open : Card → Bytes → OpenMode → Card × FResult × File
  pub f_close : Card → File → Card
  pub f_size : File → ℕ
  pub f_read : Card → File → ℕ → Card × File × FResult × Bytes
  pub f_write : Card → File → Bytes → Card × File × FResult × ℕ
  pub f_mkdir : Card → Bytes → Card × FResult

-- The loop over the directories of a path, in `CTFTPBootServer::FileCreate` and
-- `CWebDAVServer::DoPut`: each prefix that ends before a '/' and fits the buffer `Dir` is created.
module _ (fs : FatFs) where
  open fs use {Card, ff_max_lfn, f_mkdir}

  pub make_parents : Card → Bytes → Bytes → Card
  make_parents card seen [] = card
  make_parents card seen (c ∷ rest) =
      make_parents
        (if c == b'/' && ltb (length seen) (ff_max_lfn + 8) then (f_mkdir card seen).0 else card)
        (seen ++ c ∷ []) rest
