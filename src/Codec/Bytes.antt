-- ===== src/Codec/Bytes.antt =====
-- Numbers as bytes in memory, which src/bytecode/codec/main/encoder.cpp writes with
-- `aligned_write`, and src/bytecode/codec/main/decoder.cpp reads with `aligned_read`. A read
-- behind the end of memory is undefined in the source; here it has no result.
use native.Mathlib.Nat.{one-le-pow, pow-suc}
use wudoovm.Common.{
  ℕ, zero, suc, ◌+◌, ◌*◌, ◌/◌, ◌%◌, ◌^◌, ◌≤◌, ◌<◌, ◌≡◌, refl, sym, ap, List, [], ◌∷◌, ◌++◌, Option,
  none, some, arith, length,
}
use wudoovm.Common.Words.{mod_unique}

-- The memory from an address on.
abbrev pub Memory : Type 0
Memory = List ℕ

-- What a decoder returns: the value, and the memory from the new address on.
abbrev pub Decoded : Type 0 → Type 0
Decoded A = Option (A × Memory)

infixl 5 ◌>>=◌
abbrev pub ◌>>=◌ : {A B : Type 0} → Option A → (A → Option B) → Option B
none >>= f = none
some a >>= f = f a

-- The `k` low bytes of a number in the byte order of the network.
abbrev pub big_endian : ℕ → ℕ → Memory
big_endian zero n = []
big_endian (suc k) n = (n / 256 ^ k % 256) ∷ big_endian k n

abbrev pub read_big_endian : ℕ → Memory → Decoded ℕ
read_big_endian zero m = some (0, m)
read_big_endian (suc k) [] = none
read_big_endian (suc k) (b ∷ m) = do (n, after) ← read_big_endian k m; some (b * 256 ^ k + n, after)

-- The `k` low bytes of a number in the byte order of a little-endian host.
abbrev pub little_endian : ℕ → ℕ → Memory
little_endian zero n = []
little_endian (suc k) n = (n % 256) ∷ little_endian k (n / 256)

abbrev pub read_little_endian : ℕ → Memory → Decoded ℕ
read_little_endian zero m = some (0, m)
read_little_endian (suc k) [] = none
read_little_endian (suc k) (b ∷ m) = do
  (n, after) ← read_little_endian k m
  some (b + 256 * n, after)

abbrev pub read_byte : Memory → Decoded ℕ
read_byte [] = none
read_byte (b ∷ m) = some (b, m)

-- `std::copy` of `n` bytes.
abbrev pub read_bytes : ℕ → Memory → Decoded (List ℕ)
read_bytes zero m = some ([], m)
read_bytes (suc n) [] = none
read_bytes (suc n) (b ∷ m) = do (bytes, after) ← read_bytes n m; some (b ∷ bytes, after)

-- One digit above a remainder.
digit_above : (n k : ℕ) → n / 256 ^ k % 256 * 256 ^ k + n % 256 ^ k ≡ n % 256 ^ suc k
digit_above n k =
    let p = 256 ^ k in
    let a = n / p in
    let positive = one-le-pow k 256 in
    let low : n % p < p = ground (arith, positive) in
    let parts : p * a + n % p ≡ n = grind arith in
    let digits : p * a ≡ p * (256 * (a / 256) + a % 256) = ap (λ t. p * t) (omega arith) in
    let bound : p * (a % 256) + p ≤ p * 256 = grind arith in
    sym (
      mod_unique (256 ^ suc k) (a % 256 * p + n % p) (a / 256) n
        (omega (arith, bound, low, pow-suc 256 k))
        (omega (arith, parts, digits, ap (λ (t : ℕ). t * (a / 256)) (pow-suc 256 k))))

pub read-big_endian :
    (k n : ℕ) (m : Memory) → read_big_endian k (big_endian k n ++ m) ≡ some (n % 256 ^ k, m)
read-big_endian zero n m = ap (λ t. some (t, m)) (omega arith)
read-big_endian (suc k) n m = rw (read-big_endian k n m) (ap (λ t. some (t, m)) (digit_above n k))

pub read-little_endian :
    (k n : ℕ) (m : Memory)
    → n < 256 ^ k
    → read_little_endian k (little_endian k n ++ m) ≡ some (n, m)
read-little_endian zero n m h = ap (λ t. some (t, m)) (omega arith)
read-little_endian (suc k) n m h =
    rw (read-little_endian k (n / 256) m (omega (arith, pow-suc 256 k)))
      (ap (λ t. some (t, m)) (omega arith))

pub read-bytes :
    (bytes : List ℕ) (n : ℕ) (m : Memory)
    → n ≡ length bytes
    → read_bytes n (bytes ++ m) ≡ some (bytes, m)
read-bytes [] n m e = rw e refl
read-bytes (b ∷ bytes) n m e = rw (e, read-bytes bytes (length bytes) m refl) refl
