-- ===== src/WebDav/Written.antt =====
-- What a PUT writes.
use rapi_bootloader.Base.{
  ℕ, zero, suc, ◌-◌, ◌≤◌, ◌<◌, ◌≡◌, refl, sym, ap, ◌∙◌, inl, inr, true, [], ◌∷◌, ◌++◌, arith, ltb,
  ◌==◌, if◌then◌else◌, Bool-cases, length, take, drop, length-append, length-take, take-drop,
  length-drop, Bytes,
}
use mathlib.Core.List.{append-nil, append_assoc}
use rapi_bootloader.WebDav.Upload.{Upload, write_buf_size, flush_put_buf, copy_chunk}
use rapi_bootloader.Tftp.SdWrite.{WritesAppend}
use rapi_bootloader.FatFs.{FatFs, is_ok}

pub no_bytes : (bytes : Bytes) → length bytes ≡ 0 → bytes ≡ []
no_bytes [] h = refl
no_bytes (b ∷ bytes) h = absurd (omega arith)

module _ (fs : FatFs) (law : WritesAppend fs) where
  -- No write is refused or cut short.
  abbrev pub WritesAll : Type 0
  WritesAll =
      (card : fs.Card) (file : fs.File) (bytes : Bytes)
      → (is_ok (fs.f_write card file bytes).2 ≡ true)
        × ((fs.f_write card file bytes).3 ≡ length bytes)

  -- The bytes in the file, then those in the buffer.
  abbrev pub accepted : Upload fs → Bytes
  accepted u = law.contents u.card u.file ++ u.write_buf

  -- The step from one upload to the next took these bytes.
  pub record Takes (u u' : Upload fs) (bytes : Bytes) : Type 0 where
    pub grown : accepted u' ≡ accepted u ++ bytes
    pub room : length u'.write_buf < write_buf_size

  pub no_bytes-Takes :
      (u : Upload fs) (bytes : Bytes)
      → length bytes ≡ 0
      → length u.write_buf < write_buf_size
      → Takes u u bytes
  no_bytes-Takes u bytes none_left room = record {
    grown = sym (ap (λ bs. accepted u ++ bs) (no_bytes bytes none_left) ∙ append-nil (accepted u));
    room = room;
  }

  pub Takes-trans :
      (u mid u' : Upload fs) (first later bytes : Bytes)
      → accepted mid ≡ accepted u ++ first
      → first ++ later ≡ bytes
      → Takes mid u' later
      → Takes u u' bytes
  Takes-trans u mid u' first later bytes e whole t = record {
    grown =
        t.grown
        ∙ ap (λ (bs : Bytes). bs ++ later) e
        ∙ append_assoc (accepted u) first later
        ∙ ap (λ bs. accepted u ++ bs) whole;
    room = t.room;
  }

  module _ (good : WritesAll) where
    pub flushed :
        (u : Upload fs)
        → ((flush_put_buf fs u).1 ≡ true)
          × (law.contents (flush_put_buf fs u).0.card (flush_put_buf fs u).0.file ≡ accepted u)
          × ((flush_put_buf fs u).0.write_buf ≡ [])
    unfolding flush_put_buf
    flushed u =
        let all = good u.card u.file u.write_buf in
        elim (Bool-cases (length u.write_buf == 0)) [
          | inl empty ↦
              let none_left = no_bytes u.write_buf (ground (arith, empty)) in
              rw empty (
                refl,
                sym (
                    ap (λ bs. law.contents u.card u.file ++ bs) none_left
                    ∙ append-nil (law.contents u.card u.file)),
                none_left,
              )
          | inr some_left ↦
              rw some_left
                (ground (arith, all), law.appends u.card u.file u.write_buf all.0 all.1, refl)
        ]

    -- A chunk is taken in whole, and leaves room in the buffer.
    pub copy_chunk-Takes :
        (fuel : ℕ) (u : Upload fs) (bytes : Bytes)
        → length bytes ≤ fuel
        → length u.write_buf < write_buf_size
        → ((copy_chunk fs fuel u bytes).1 ≡ true) × Takes u (copy_chunk fs fuel u bytes).0 bytes
    unfolding copy_chunk
    copy_chunk-Takes zero u bytes enough room =
        (refl, no_bytes-Takes u bytes (omega (arith, enough)) room)
    copy_chunk-Takes (suc fuel) u bytes enough room =
        let space = write_buf_size - length u.write_buf in
        let n = if ltb (length bytes) space then length bytes else space in
        let filled : Upload fs = record u { write_buf = u.write_buf ++ take n bytes } in
        let full = length filled.write_buf == write_buf_size in
        let (done, moved, emptied) = flushed filled in
        let grown = sym (append_assoc (law.contents u.card u.file) u.write_buf (take n bytes)) in
        elim (Bool-cases (length bytes == 0)) [
          | inl end ↦ rw end (refl, no_bytes-Takes u bytes (ground (arith, end)) room)
          | inr more ↦
              let smaller : length (drop n bytes) ≤ fuel =
                ground (arith, length-drop n bytes, more, enough, room) in
              elim (Bool-cases full) [
                | inl reached ↦
                    let next = (flush_put_buf fs filled).0 in
                    let (ok, rest) =
                      copy_chunk-Takes fuel next (drop n bytes) smaller (ground (arith, emptied)) in
                    let same : accepted next ≡ accepted u ++ take n bytes =
                      ap (λ bs. law.contents next.card next.file ++ bs) emptied
                      ∙ append-nil (law.contents next.card next.file)
                      ∙ moved
                      ∙ grown in
                    rw (more, reached, done)
                      (
                        ok,
                        Takes-trans u next _ (take n bytes) (drop n bytes) bytes same
                            (take-drop n bytes) rest,
                      )
                | inr fits ↦
                    let below : length filled.write_buf < write_buf_size = ground (
                      arith,
                      fits,
                      room,
                      length-append u.write_buf (take n bytes),
                      length-take n bytes,
                    ) in
                    let (ok, rest) = copy_chunk-Takes fuel filled (drop n bytes) smaller below in
                    rw (more, fits)
                      (
                        ok,
                        Takes-trans u filled _ (take n bytes) (drop n bytes) bytes grown
                            (take-drop n bytes) rest,
                      )
              ]
        ]
