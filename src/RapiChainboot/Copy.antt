-- ===== src/RapiChainboot/Copy.antt =====
-- The stub's copying loop.
use rapi_bootloader.Base.{
  ℕ, zero, suc, ◌+◌, ◌-◌, ◌*◌, ◌≤◌, ◌<◌, ◌≡◌, refl, ap, ◌∙◌, ◌⊎◌, inl, inr, arith, ltb, Bool-cases,
  length, get_or,
}
use rapi_bootloader.Memory.{Memory, read, write}
use rapi_bootloader.Memory.Laws.{write_outside, write_inside, length-read}
use rapi_bootloader.RapiChainboot.Handoff.{copy_words}

pub get_or-read : (m : Memory) (at n i : ℕ) → i < n → get_or (read m at n) i 0 ≡ m (at + i)
unfolding read
get_or-read m at zero i h = absurd (omega arith)
get_or-read m at (suc n) zero h = ap m (omega arith)
get_or-read m at (suc n) (suc i) h = get_or-read m (at + 1) n i (omega arith) ∙ ap m (omega arith)

-- Two readings with the same bytes.
pub read-eq :
    (m m' : Memory) (at at' n : ℕ)
    → ((i : ℕ) → i < n → m (at + i) ≡ m' (at' + i))
    → read m at n ≡ read m' at' n
unfolding read
read-eq m m' at at' zero h = refl
read-eq m m' at at' (suc n) h =
    let head : m at ≡ m' at' = ap m (omega arith) ∙ h 0 (omega arith) ∙ ap m' (omega arith) in
    let tail =
      read-eq m m' (at + 1) (at' + 1) n
        (λ i lt. ap m (omega arith) ∙ h (suc i) (omega arith) ∙ ap m' (omega arith)) in
    cc (head, tail)

-- Outside the target nothing changes.
pub copy_words_outside :
    (n source target : ℕ) (m : Memory) (a : ℕ)
    → (a < target) ⊎ (target + 4 * n ≤ a)
    → copy_words n source target m a ≡ m a
unfolding copy_words
copy_words_outside zero source target m a out = refl
copy_words_outside (suc n) source target m a out =
    copy_words_outside n (source + 4) (target + 4) _ a (ground arith)
    ∙ write_outside m target (read m source 4) a (ground (arith, length-read m source 4))

-- A copy to a lower address gives every byte of the source as it was, also where the two overlap.
pub copy_words_inside :
    (n source target : ℕ) (m : Memory) (i : ℕ)
    → target ≤ source
    → i < 4 * n
    → copy_words n source target m (target + i) ≡ m (source + i)
unfolding copy_words
copy_words_inside zero source target m i below h = absurd (omega arith)
copy_words_inside (suc n) source target m i below h = elim (Bool-cases (ltb i 4)) [
  | inl first ↦
      let short : i < length (read m source 4) = ground (arith, first, length-read m source 4) in
      copy_words_outside n (source + 4) (target + 4) _ (target + i) (inl (ground (arith, first)))
      ∙ write_inside m target (read m source 4) i short
      ∙ get_or-read m source 4 i (ground (arith, first))
  | inr later ↦
      let at : target + i ≡ target + 4 + (i - 4) = ground (arith, later) in
      let from : source + 4 + (i - 4) ≡ source + i = ground (arith, later) in
      let word = write m target (read m source 4) in
      ap (copy_words n (source + 4) (target + 4) word) at
      ∙ copy_words_inside n (source + 4) (target + 4) word (i - 4) (omega arith)
          (ground (arith, later))
      ∙ ap word from
      ∙ write_outside m target (read m source 4) (source + i)
          (inr (ground (arith, later, length-read m source 4)))
]

-- The first bytes of the target are those of the source.
pub read-copy_words :
    (n source target size : ℕ) (m : Memory)
    → target ≤ source
    → size ≤ 4 * n
    → read (copy_words n source target m) target size ≡ read m source size
read-copy_words n source target size m below fits =
    read-eq (copy_words n source target m) m target source size
      (λ i h. copy_words_inside n source target m i below (omega arith))
