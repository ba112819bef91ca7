-- ===== src/Tests/Caches.antt =====
-- The hand-off over a write-back cache that holds lines of another boot.
use rapi_bootloader.Base.{
  ℕ, zero, suc, ◌+◌, ◌/◌, ◌%◌, ◌≤◌, ◌<◌, ◌≡◌, refl, sym, ◌∙◌, ◌⊎◌, inl, inr, Bool, true, false, [],
  ◌∷◌, arith, if◌then◌else◌, Bool-cases, get_or, Bytes,
}
use rapi_bootloader.Memory.{Memory, read, write}
use rapi_bootloader.Memory.Laws.{write_inside, write_outside}
use rapi_bootloader.RapiChainboot.Caches.{Caches, CacheLaws, Keeps, hand_off}
use rapi_bootloader.RapiChainboot.Caches.Carries.{hand_off-do_chain_boot}
use rapi_bootloader.RapiChainboot.Copy.{get_or-read}
use rapi_bootloader.RapiChainboot.Handoff.{arm_dtb_ptr32, do_chain_boot}
use rapi_bootloader.RapiChainboot.{Statics, initial}
use rapi_bootloader.Circle.{mem_kernel_start}
use rapi_bootloader.Tests.Board.{board, board-MemoryMap, blank}

record Lines : Type 0 where
  pub ram : Memory
  pub held : ℕ → Bool
  pub bytes : Memory

abbrev seen : Lines → Memory
seen w a = if w.held (a / 64) then w.bytes a else w.ram a

-- Every line is written back.
abbrev flush : Lines → Lines
flush w = record { ram = seen w; held = λ l. false; bytes = w.bytes }

abbrev word_of : Bytes → Bytes
word_of bs = get_or bs 0 0 ∷ get_or bs 1 0 ∷ get_or bs 2 0 ∷ get_or bs 3 0 ∷ []

abbrev cache : Caches
cache = record {
  State = Lines;
  coherent = seen;
  dram = λ w. w.ram;
  store = λ w at bs. record { ram = w.ram; held = λ l. true; bytes = write (seen w) at bs };
  clean_data_cache = λ w. w;
  clean_data_cache_range = λ w at n. flush w;
  clean_and_invalidate_data_cache_range = λ w at n. flush w;
  caches_off = λ w. w;
  dc_civac = λ w at. flush w;
  load32 = λ w at. (w, read w.ram at 4);
  store32 = λ w at bs. record w { ram = write w.ram at (word_of bs) };
}

abbrev IsSettled : Lines → ℕ → Type 0
IsSettled w a = w.held (a / 64) ≡ false

flush-Keeps : (w : Lines) (a : ℕ) → Keeps cache seen IsSettled w (flush w) a
flush-Keeps w a = record { same_value = refl; still_settled = λ h. refl; still_home = λ h. refl }

same-Keeps : (w : Lines) (a : ℕ) → Keeps cache seen IsSettled w w a
same-Keeps w a = record { same_value = refl; still_settled = λ h. h; still_home = λ h. h }

seen_with :
    (w : Lines) (m : Memory) (a : ℕ) → m a ≡ w.ram a → seen (record w { ram = m }) a ≡ seen w a
seen_with w m a e = elim (Bool-cases (w.held (a / 64))) [ inl h ↦ rw h refl | inr h ↦ rw h e ]

stores-Keeps :
    (w : Lines) (at : ℕ) (bs : Bytes) (a : ℕ)
    → (a < at) ⊎ (at + 4 ≤ a)
    → Keeps cache seen IsSettled w (cache.store32 w at bs) a
stores-Keeps w at bs a out =
    let e : write w.ram at (word_of bs) a ≡ w.ram a = write_outside w.ram at (word_of bs) a out in
    let same = seen_with w (write w.ram at (word_of bs)) a e in
    record { same_value = same; still_settled = λ h. h; still_home = λ h. e ∙ (h ∙ sym same) }

get_or-word_of : (bs : Bytes) (i : ℕ) → i < 4 → get_or (word_of bs) i 0 ≡ get_or bs i 0
get_or-word_of bs zero h = refl
get_or-word_of bs (suc zero) h = refl
get_or-word_of bs (suc (suc zero)) h = refl
get_or-word_of bs (suc (suc (suc zero))) h = refl
get_or-word_of bs (suc (suc (suc (suc i)))) h = absurd (omega (arith, h))

stores_value :
    (w : Lines) (at : ℕ) (bs : Bytes) (i : ℕ)
    → i < 4
    → ((j : ℕ) → j < 4 → IsSettled w (at + j))
    → seen (cache.store32 w at bs) (at + i) ≡ get_or bs i 0
stores_value w at bs i h fresh =
    rw (fresh i h) (write_inside w.ram at (word_of bs) i h ∙ get_or-word_of bs i h)

loads_value :
    (w : Lines) (at i : ℕ)
    → i < 4
    → IsSettled w (at + i)
    → get_or (read w.ram at 4) i 0 ≡ seen w (at + i)
loads_value w at i h fresh = rw fresh (get_or-read w.ram at 4 i h)

abbrev cache-CacheLaws : CacheLaws cache
cache-CacheLaws = record {
  value = seen;
  settled = IsSettled;
  store_coherent = λ w at bs a. refl;
  cleans = λ w a. refl;
  range_keeps = λ w at n a. flush-Keeps w a;
  range_homes = λ w at n a lo hi. record { is_settled = refl; in_dram = refl };
  invalidate_keeps = λ w at n a. flush-Keeps w a;
  invalidate_homes = λ w at n a lo hi. record { is_settled = refl; in_dram = refl };
  off_keeps = same-Keeps;
  civac_keeps = λ w at a. flush-Keeps w a;
  civac_homes = λ w at a aligned lo hi. record { is_settled = refl; in_dram = refl };
  load_keeps = λ w at a. same-Keeps w a;
  load_value = loads_value;
  store_keeps = stores-Keeps;
  store_value = stores_value;
}

-- Every line is held, with other bytes than the memory's.
abbrev dirty : Lines
dirty = record { ram = blank; held = λ l. true; bytes = λ a. a % 256 }

abbrev armed : Statics
armed = record initial { kernel_image = 0x4000_0000; kernel_size = 0x20; stub = 0x30_0000 }

hand_off-do_chain_boot_example :
    (read (hand_off cache armed dirty).ram mem_kernel_start 0x20
      ≡ read (do_chain_boot armed (seen dirty)) mem_kernel_start 0x20)
    × ((armed.dtb_copy ≡ 0)
        ⊎ ((read (hand_off cache armed dirty).ram arm_dtb_ptr32 4
              ≡ read (do_chain_boot armed (seen dirty)) arm_dtb_ptr32 4)
            × (read (hand_off cache armed dirty).ram 0 0
                ≡ read (do_chain_boot armed (seen dirty)) 0 0)))
hand_off-do_chain_boot_example =
    hand_off-do_chain_boot cache cache-CacheLaws armed dirty board board-MemoryMap refl
      (omega arith) (omega arith) (inl refl)
