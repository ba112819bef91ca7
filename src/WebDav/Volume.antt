-- ===== src/WebDav/Volume.antt =====
-- The FatFs calls on directories that the WebDAV server makes, next to those of FatFs.antt.
use rapi_bootloader.Base.{ℕ, Bool, List, Bytes}
use rapi_bootloader.FatFs.{FatFs, FResult}

-- `FILINFO`: the name, the size, and whether the attribute is that of a directory.
pub record FilInfo : Type 0 where
  pub fname : Bytes
  pub fsize : ℕ
  pub is_dir : Bool

-- An opened directory is the list of what successive calls of `f_readdir` give.
pub record Volume (fs : FatFs) : Type 0 where
  pub f_stat : fs.Card → Bytes → FResult × FilInfo
  pub f_opendir : fs.Card → Bytes → FResult × List (FResult × FilInfo)
  pub f_unlink : fs.Card → Bytes → fs.Card × FResult
