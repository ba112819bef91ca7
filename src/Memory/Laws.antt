-- ===== src/Memory/Laws.antt =====
-- What is read back after a write, and what a write leaves alone.
use native.Mathlib.Nat.{le_refl}
use rapi_bootloader.Base.{
  ℕ, zero, suc, ◌+◌, ◌-◌, ◌≤◌, ◌<◌, ◌≡◌, refl, ap, ◌⊎◌, inl, [], ◌∷◌, ◌++◌, arith, length, get_or,
  length-append, All, Bytes,
}
use rapi_bootloader.Memory.{Memory, AllBytes, write, read, read_u16, write_u16}

pub write_outside :
    (m : Memory) (at : ℕ) (bs : Bytes) (a : ℕ)
    → (a < at) ⊎ (at + length bs ≤ a)
    → write m at bs a ≡ m a
unfolding write
write_outside m at bs a h = ground arith

pub write_inside :
    (m : Memory) (at : ℕ) (bs : Bytes) (i : ℕ)
    → i < length bs
    → write m at bs (at + i) ≡ get_or bs i 0
unfolding write
write_inside m at bs i h =
    let e : at + i - at ≡ i = omega arith in ground (arith, ap (λ j. get_or bs j 0) e)

-- Reading depends only on the bytes that are read.
pub read_same :
    (m m' : Memory) (at n : ℕ)
    → ((a : ℕ) → at ≤ a → a < at + n → m a ≡ m' a)
    → read m at n ≡ read m' at n
unfolding read
read_same m m' at zero h = refl
read_same m m' at (suc n) h = cc (
  h at (omega arith) (omega arith),
  read_same m m' (at + 1) n (λ a lo hi. h a (omega arith) (omega arith)),
)

read-get_or :
    (m : Memory) (at : ℕ) (bs : Bytes)
    → ((i : ℕ) → i < length bs → m (at + i) ≡ get_or bs i 0)
    → read m at (length bs) ≡ bs
unfolding read
read-get_or m at [] h = refl
read-get_or m at (b ∷ bs) h =
    let e : at + 0 ≡ at = omega arith in
    cc (ap m e, h 0 (omega arith), read-get_or m (at + 1) bs later)
  where
    later : (i : ℕ) → i < length bs → m (at + 1 + i) ≡ get_or bs i 0
    later i lt = let e : at + 1 + i ≡ at + suc i = omega arith in rw e (h (suc i) (omega arith))

-- What memcpy wrote is read back.
pub read-write_self : (m : Memory) (at : ℕ) (bs : Bytes) → read (write m at bs) at (length bs) ≡ bs
read-write_self m at bs = read-get_or _ at bs (λ i h. write_inside m at bs i h)

-- A write elsewhere is not seen.
pub read-write_apart :
    (m : Memory) (at : ℕ) (bs : Bytes) (from n : ℕ)
    → (from + n ≤ at) ⊎ (at + length bs ≤ from)
    → read (write m at bs) from n ≡ read m from n
read-write_apart m at bs from n h =
    read_same _ m from n (λ a lo hi. write_outside m at bs a (ground arith))

pub read-append : (m : Memory) (at k n : ℕ) → read m at (k + n) ≡ read m at k ++ read m (at + k) n
unfolding read
read-append m at zero n =
    let e : zero + n ≡ n = omega arith in let e' : at + zero ≡ at = omega arith in rw (e, e')
read-append m at (suc k) n =
    let e : suc k + n ≡ suc (k + n) = omega arith in
    let e' : at + suc k ≡ at + 1 + k = omega arith in
    rw (e, e') (ap (◌∷◌ (m at)) (read-append m (at + 1) k n))

pub length-read : (m : Memory) (at n : ℕ) → length (read m at n) ≡ n
unfolding read
length-read m at zero = refl
length-read m at (suc n) = ap suc (length-read m (at + 1) n)

pub read_u16-write_u16 : (m : Memory) (at v : ℕ) → v < 65536 → read_u16 (write_u16 m at v) at ≡ v
unfolding read_u16 write_u16 write
read_u16-write_u16 m at v h = ground arith

-- Bytes appended behind what a buffer holds.
pub read-write_behind :
    (m : Memory) (at : ℕ) (a b : Bytes)
    → read m at (length a) ≡ a
    → read (write m (at + length a) b) at (length (a ++ b)) ≡ a ++ b
read-write_behind m at a b h = rw (
  length-append a b,
  read-append (write m (at + length a) b) at (length a) (length b),
  read-write_self m (at + length a) b,
  read-write_apart m (at + length a) b at (length a) (inl (le_refl _)),
  h,
)

pub read_none : (m : Memory) (at n : ℕ) → n ≡ 0 → read m at n ≡ []
unfolding read
read_none m at zero e = refl
read_none m at (suc n) e = absurd (omega arith)

pub read-write_after :
    (m : Memory) (at n : ℕ) (b : Bytes)
    → read (write m (at + n) b) at (n + length b) ≡ read m at n ++ b
read-write_after m at n b = rw (
  read-append (write m (at + n) b) at n (length b),
  read-write_self m (at + n) b,
  read-write_apart m (at + n) b at n (inl (le_refl _)),
)

pub AllBytes-write :
    (m : Memory) (at : ℕ) (bs : Bytes)
    → All (λ b. b < 256) bs
    → AllBytes m
    → AllBytes (write m at bs)
unfolding write
AllBytes-write m at bs small h a = ground (arith, get_or-lt bs (a - at) small, h a)
  where
    get_or-lt : (cs : Bytes) (i : ℕ) → All (λ b. b < 256) cs → get_or cs i 0 < 256
    get_or-lt [] i k = omega arith
    get_or-lt (c ∷ cs) zero k = k.0
    get_or-lt (c ∷ cs) (suc i) k = get_or-lt cs i k.1
