-- ===== src/MenuLoader/Staging.antt =====
-- What the loop of `BootSelection` that reads the image leaves in the staging buffer.
use rapi_bootloader.Base.{
  ℕ, zero, suc, ◌+◌, ◌-◌, ◌≤◌, ◌<◌, ◌≡◌, refl, sym, ap, ◌∙◌, subst, inl, inr, Bool, true, false, [],
  ◌∷◌, ◌++◌, arith, ltb, leb, if◌then◌else◌, Bool-cases, length, take, drop, length-append, Bytes,
}
use rapi_bootloader.FatFs.{FatFs, is_ok, fa_read}
use rapi_bootloader.Memory.{read, write}
use rapi_bootloader.Memory.Laws.{read-write_behind}
use mathlib.Core.List.{append-nil, append_assoc}
use rapi_bootloader.MenuLoader.Selection.{max_chunk, Loading, read_chunk, read_image}

-- `f_read` as FatFs documents it: a read that succeeds gives the next bytes of the file, as many as
-- were asked for unless the file ends first, and moves behind them. An opened file is at its start,
-- and `f_size` is its length.
pub record ReadsInOrder (fs : FatFs) : Type 0 where
  pub rest : fs.Card → fs.File → Bytes
  pub reads :
      (c : fs.Card) (f : fs.File) (n : ℕ)
      → is_ok (fs.f_read c f n).2 ≡ true
      → ((fs.f_read c f n).3 ≡ take n (rest c f))
        × (rest (fs.f_read c f n).0 (fs.f_read c f n).1 ≡ drop n (rest c f))
  pub sizes :
      (c : fs.Card) (path : Bytes)
      → is_ok (fs.f_open c path fa_read).1 ≡ true
      → fs.f_size (fs.f_open c path fa_read).2
        ≡ length (rest (fs.f_open c path fa_read).0 (fs.f_open c path fa_read).2)

append-take-drop : (n : ℕ) (xs : Bytes) → take n xs ++ drop n xs ≡ xs
append-take-drop zero xs = refl
append-take-drop (suc n) [] = refl
append-take-drop (suc n) (x ∷ xs) = ap (λ r. x ∷ r) (append-take-drop n xs)

-- A beginning that is as long as the whole is the whole.
whole : (a b c : Bytes) → a ++ b ≡ c → length c ≤ length a → (b ≡ []) × (a ≡ c)
whole a [] c e long = (refl, sym (append-nil a) ∙ e)
whole a (x ∷ b) c e long = ground (arith, length-append a (x ∷ b), ap length e)

module _ (fs : FatFs) (law : ReadsInOrder fs) (buffer : ℕ) (contents : Bytes) where
  -- The bytes read so far stand in the buffer, and the rest of the file is ahead.
  pub record IsLoading (l : Loading fs) (seen : Bytes) : Type 0 where
    pub so_far : l.offset ≡ length seen
    pub staged : read l.memory buffer (length seen) ≡ seen
    pub split : seen ++ law.rest l.card l.file ≡ contents

  done :
      (l : Loading fs) (seen : Bytes)
      → IsLoading l seen
      → length contents ≤ l.offset
      → (l.offset ≡ length contents) × (read l.memory buffer (length contents) ≡ contents)
  done l seen h long =
      let all = whole seen _ contents h.split (subst (λ n. length contents ≤ n) h.so_far long) in
      (
        h.so_far ∙ ap length all.1,
        subst (λ bs. read l.memory buffer (length bs) ≡ bs) all.1 h.staged,
      )

  -- How many bytes a read asks for.
  abbrev pub chunk_of : Loading fs → ℕ
  chunk_of l =
      if ltb max_chunk (length contents - l.offset) then max_chunk else length contents - l.offset

  abbrev pub next_bytes : Loading fs → Bytes
  next_bytes l = (fs.f_read l.card l.file (chunk_of l)).3

  pub read_chunk-IsLoading :
      (l : Loading fs) (seen : Bytes)
      → IsLoading l seen
      → (read_chunk fs buffer (length contents) l).read_ok ≡ true
      → (0 < length (next_bytes l))
        × IsLoading (read_chunk fs buffer (length contents) l) (seen ++ next_bytes l)
  unfolding read_chunk
  read_chunk-IsLoading l seen h good =
      let got = fs.f_read l.card l.file (chunk_of l) in
      let ok : is_ok got.2 ≡ true = ground (arith, good) in
      let order = law.reads l.card l.file (chunk_of l) ok in
      let all = append-take-drop (chunk_of l) (law.rest l.card l.file) in
      (
        ground (arith, good),
        record {
          so_far =
              rw (ok, length-append seen (next_bytes l))
                (ap (λ n. n + length (next_bytes l)) h.so_far);
          staged =
              subst
                (λ n.
                  read (write l.memory (buffer + n) (next_bytes l)) buffer
                    (length (seen ++ next_bytes l))
                  ≡ seen ++ next_bytes l)
                (sym h.so_far) (read-write_behind l.memory buffer seen (next_bytes l) h.staged);
          split =
              append_assoc seen _ _ ∙ (ap (λ r. seen ++ r) (rw (order.0, order.1) all) ∙ h.split);
        },
      )

  pub after_read :
      (fuel : ℕ) (l : Loading fs) (good : Bool)
      → leb (length contents) l.offset ≡ false
      → (read_chunk fs buffer (length contents) l).read_ok ≡ good
      → read_image fs (suc fuel) buffer (length contents) l ≡ (
          if good
          then read_image fs fuel buffer
              (length contents)
              (read_chunk fs buffer (length contents) l)
          else read_chunk fs buffer (length contents) l)
  unfolding read_image
  after_read fuel l good left e =
      let read = read_chunk fs buffer (length contents) l in
      let rest = read_image fs fuel buffer (length contents) read in
      rw left (ap (λ (b : Bool). if b then rest else read) e)

  abbrev StagesAll : Loading fs → Type 0
  StagesAll l =
      l.read_ok ≡ true
      → (l.offset ≡ length contents) × (read l.memory buffer (length contents) ≡ contents)

  -- With fuel for every byte that is left, a loop that ends well has staged the whole file.
  pub read_image-StagesAll :
      (fuel : ℕ) (l : Loading fs) (seen : Bytes)
      → IsLoading l seen
      → length contents ≤ l.offset + fuel
      → StagesAll (read_image fs fuel buffer (length contents) l)
  unfolding read_image
  read_image-StagesAll zero l seen h enough = λ good. done l seen h (ground arith)
  read_image-StagesAll (suc fuel) l seen h enough =
      elim (Bool-cases (leb (length contents) l.offset)) [
        | inl end ↦ rw end (λ good. done l seen h (ground (arith, end)))
        | inr left ↦ elim (Bool-cases (read_chunk fs buffer (length contents) l).read_ok) [
          | inl ok ↦
              let step = read_chunk-IsLoading l seen h ok in
              subst StagesAll (sym (after_read fuel l true left ok)) (
                read_image-StagesAll fuel (read_chunk fs buffer (length contents) l) _ step.1 (
                  ground
                    (arith, step.0, step.1.so_far, h.so_far, length-append seen (next_bytes l))))
          | inr bad ↦
              subst StagesAll (sym (after_read fuel l false left bad))
                (λ good. ground (arith, good, bad))
        ]
      ]
