-- ===== src/Common/Words.antt =====
-- `&` and `|` of native numbers as arithmetic, for fields that do not overlap.
use Prim.Native.Nat.{
  ℕ, zero, suc, ◌+◌, ◌-◌, ◌*◌, ◌/◌, ◌%◌, ◌^◌, ◌≤◌, ◌<◌, min, max, bit_and, bit_or, digits, bitwise,
  bit_xor, bit_and-bitwise, bit_or-bitwise, bit_xor-bitwise, differ,
}
use mathlib.Core.Path.{◌≡◌, refl, sym, ap, ap₂, ◌∙◌}
use native.Mathlib.Nat.{pow-suc, one-le-pow, mod-eq_of_lt, div-div-eq-div-mul}
use native.Mathlib.Omega.{arith}

-- The recursion on digits has as much fuel as the first number; more of it changes nothing.
module _ (rest : ℕ → ℕ) (digit : ℕ → ℕ → ℕ) where
  one_more :
      (fuel x y : ℕ) → x ≤ fuel → digits rest digit (suc fuel) x y ≡ digits rest digit fuel x y
  one_more zero zero y enough = refl
  one_more (suc fuel) zero y enough = refl
  one_more zero (suc x) y enough = absurd (omega arith)
  one_more (suc fuel) (suc x) y enough =
      ap (λ t. t * 2 + digit (suc x % 2) (y % 2)) (one_more fuel (suc x / 2) (y / 2) (omega arith))

  spare :
      (extra fuel x y : ℕ)
      → x ≤ fuel
      → digits rest digit (extra + fuel) x y ≡ digits rest digit fuel x y
  spare zero fuel x y enough = ap (λ k. digits rest digit k x y) (omega arith)
  spare (suc extra) fuel x y enough =
      let regroup : suc extra + fuel ≡ suc (extra + fuel) = omega arith in
      ap (λ k. digits rest digit k x y) regroup
      ∙ one_more (extra + fuel) x y (omega arith)
      ∙ spare extra fuel x y enough

  lowest_digit :
      (x y : ℕ)
      → bitwise rest digit (suc x) y
        ≡ bitwise rest digit (suc x / 2) (y / 2) * 2 + digit (suc x % 2) (y % 2)
  lowest_digit x y =
      let half = suc x / 2 in
      let split : x ≡ (x - half) + half = omega arith in
      ap (λ t. t * 2 + digit (suc x % 2) (y % 2))
        (ap (λ k. digits rest digit k half (y / 2)) split
          ∙ spare (x - half) half half (y / 2) (omega arith))

or_digit : (x y : ℕ) → bit_or x y ≡ bit_or (x / 2) (y / 2) * 2 + max (x % 2) (y % 2)
or_digit zero y = simp bit_or-bitwise (omega arith)
or_digit (suc x) y = simp bit_or-bitwise (lowest_digit (λ d. d) max x y)

and_digit : (x y : ℕ) → bit_and x y ≡ bit_and (x / 2) (y / 2) * 2 + min (x % 2) (y % 2)
and_digit zero y = simp bit_and-bitwise (omega arith)
and_digit (suc x) y = simp bit_and-bitwise (lowest_digit (λ d. 0) min x y)

xor_digit : (x y : ℕ) → bit_xor x y ≡ bit_xor (x / 2) (y / 2) * 2 + differ (x % 2) (y % 2)
xor_digit zero y = simp bit_xor-bitwise (omega arith)
xor_digit (suc x) y = simp bit_xor-bitwise (lowest_digit (λ d. d) differ x y)

-- Both operations with 0, by halving the other number.
with_zero : (bound x : ℕ) → x ≤ bound → (bit_or x 0 ≡ x) × (bit_and x 0 ≡ 0)
with_zero zero x h = let e : x ≡ 0 = omega arith in rw e (refl, refl)
with_zero (suc bound) x h =
    let (or_half, and_half) = with_zero bound (x / 2) (omega arith) in
    (omega (arith, or_digit x 0, or_half), omega (arith, and_digit x 0, and_half))

pub bit_or-zero : (a : ℕ) → bit_or a 0 ≡ a
bit_or-zero a = (with_zero a a (omega arith)).0

bit_and-zero : (a : ℕ) → bit_and a 0 ≡ 0
bit_and-zero a = (with_zero a a (omega arith)).1

pub zero-bit_or : (b : ℕ) → bit_or 0 b ≡ b
zero-bit_or b = bit_or-bitwise 0 b

pub zero-bit_xor : (b : ℕ) → bit_xor 0 b ≡ b
zero-bit_xor b = bit_xor-bitwise 0 b

pow-suc_times : (k q : ℕ) → 2 ^ suc k * q ≡ 2 * (2 ^ k * q)
pow-suc_times k q = omega (arith, ap (λ (t : ℕ). t * q) (pow-suc 2 k))

-- Numbers cut in two at bit `k`: the parts below and above are combined apart.
pub bit_or_parts :
    (k a b c d : ℕ)
    → a < 2 ^ k
    → c < 2 ^ k
    → (bit_or a c < 2 ^ k)
      × (bit_or (a + 2 ^ k * b) (c + 2 ^ k * d) ≡ bit_or a c + 2 ^ k * bit_or b d)
bit_or_parts zero a b c d p q =
    let ea : a ≡ 0 = omega arith in
    let ec : c ≡ 0 = omega arith in
    let eb : 0 + 2 ^ 0 * b ≡ b = omega arith in
    let ed : 0 + 2 ^ 0 * d ≡ d = omega arith in
    rw (ea, ec) (omega arith, ap₂ bit_or eb ed ∙ omega arith)
bit_or_parts (suc k) a b c d p q =
    let (low, ih) =
      bit_or_parts k (a / 2) b (c / 2) d (omega (arith, pow-suc 2 k))
        (omega (arith, pow-suc 2 k)) in
    let here = or_digit a c in
    let both = or_digit (a + 2 ^ suc k * b) (c + 2 ^ suc k * d) in
    let half_a : (a + 2 ^ suc k * b) / 2 ≡ a / 2 + 2 ^ k * b = omega (arith, pow-suc_times k b) in
    let half_c : (c + 2 ^ suc k * d) / 2 ≡ c / 2 + 2 ^ k * d = omega (arith, pow-suc_times k d) in
    let halves = ap₂ bit_or half_a half_c in
    (
      omega (arith, here, low, pow-suc 2 k),
      omega (
        arith,
        here,
        both,
        halves,
        ih,
        pow-suc_times k b,
        pow-suc_times k d,
        pow-suc_times k (bit_or b d),
      ),
    )

-- The parts of a number below and above a digit.
pub mod_of_parts : (m r q : ℕ) → r < m → (r + m * q) % m ≡ r
mod_of_parts m r q h = grind (arith, mod-eq_of_lt)

pub mod_unique : (m r q n : ℕ) → r < m → r + m * q ≡ n → n % m ≡ r
mod_unique m r q n h e = rw (← e) (mod_of_parts m r q h)

pub div_of_parts : (m r q : ℕ) → r < m → (r + m * q) / m ≡ q
div_of_parts m r q h = grind arith

-- A mask of `w` bits at bit `k`, shifted down.
pub low_mask_bits : (w a : ℕ) → bit_and a (2 ^ w - 1) ≡ a % 2 ^ w
low_mask_bits zero a = omega (arith, bit_and-zero a)
low_mask_bits (suc w) a =
    let ih = low_mask_bits w (a / 2) in
    let half : (2 ^ suc w - 1) / 2 ≡ 2 ^ w - 1 = omega (arith, pow-suc 2 w, one-le-pow w 2) in
    let odd : (2 ^ suc w - 1) % 2 ≡ 1 = omega (arith, pow-suc 2 w, one-le-pow w 2) in
    let halves = ap (bit_and (a / 2)) half in
    let quotient = 2 ^ w * (a / 2 / 2 ^ w) in
    let parts : a / 2 % 2 ^ w + quotient ≡ a / 2 = grind arith in
    let low : a / 2 % 2 ^ w < 2 ^ w = ground (arith, one-le-pow w 2) in
    let rest =
      mod_unique (2 ^ suc w) (a / 2 % 2 ^ w * 2 + a % 2) (a / 2 / 2 ^ w) a
        (omega (arith, low, pow-suc 2 w)) (omega (arith, parts, pow-suc_times w (a / 2 / 2 ^ w))) in
    omega (arith, ih, odd, halves, rest, and_digit a (2 ^ suc w - 1))

pub mask_bits : (k m a : ℕ) → bit_and a (2 ^ k * m) ≡ 2 ^ k * bit_and (a / 2 ^ k) m
mask_bits zero m a =
    let whole : a / 2 ^ 0 ≡ a = omega arith in
    let mask : 2 ^ 0 * m ≡ m = omega arith in rw (whole, mask) (omega arith)
mask_bits (suc k) m a =
    let ih = mask_bits k m (a / 2) in
    let half : (2 ^ suc k * m) / 2 ≡ 2 ^ k * m = omega (arith, pow-suc_times k m) in
    let even : (2 ^ suc k * m) % 2 ≡ 0 = omega (arith, pow-suc_times k m) in
    let halves = ap (bit_and (a / 2)) half in
    let shifted : a / 2 / 2 ^ k ≡ a / 2 ^ suc k =
      div-div-eq-div-mul a 2 (2 ^ k) ∙ ap (λ (t : ℕ). a / t) (omega (arith, pow-suc 2 k)) in
    rw (← shifted) (
      omega (
        arith,
        ih,
        even,
        halves,
        pow-suc_times k (bit_and (a / 2 / 2 ^ k) m),
        and_digit a (2 ^ suc k * m),
      ))

differ_digits : (p q : ℕ) → p < 2 → q < 2 → (differ p q < 2) × (differ (differ p q) q ≡ p)
differ_digits zero zero hp hq = (omega arith, refl)
differ_digits zero (suc zero) hp hq = (omega arith, refl)
differ_digits (suc zero) zero hp hq = (omega arith, refl)
differ_digits (suc zero) (suc zero) hp hq = (omega arith, refl)
differ_digits (suc (suc p)) q hp hq = absurd (omega arith)
differ_digits zero (suc (suc q)) hp hq = absurd (omega arith)
differ_digits (suc zero) (suc (suc q)) hp hq = absurd (omega arith)

-- Exclusive or with the same number twice changes nothing.
bit_xor-bit_xor_below : (n a b : ℕ) → a ≤ n → b ≤ n → bit_xor (bit_xor a b) b ≡ a
bit_xor-bit_xor_below zero a b ha hb =
    let ea : a ≡ 0 = omega arith in let eb : b ≡ 0 = omega arith in rw (ea, eb) refl
bit_xor-bit_xor_below (suc n) a b ha hb =
    let x = bit_xor a b in
    let (small, back) = differ_digits (a % 2) (b % 2) (omega arith) (omega arith) in
    let first = xor_digit a b in
    let half : x / 2 ≡ bit_xor (a / 2) (b / 2) = omega (arith, first, small) in
    let odd : x % 2 ≡ differ (a % 2) (b % 2) = omega (arith, first, small) in
    let high = ap (λ t. bit_xor t (b / 2)) half in
    let low = ap (λ t. differ t (b % 2)) odd in
    let ih = bit_xor-bit_xor_below n (a / 2) (b / 2) (omega arith) (omega arith) in
    omega (arith, xor_digit x b, high, low, ih, back)

pub bit_xor-bit_xor : (a b : ℕ) → bit_xor (bit_xor a b) b ≡ a
bit_xor-bit_xor a b = bit_xor-bit_xor_below (max a b) a b (omega arith) (omega arith)

bit_and-bit_or_below : (n a b : ℕ) → a ≤ n → b ≤ n → bit_and (bit_or a b) b ≡ b
bit_and-bit_or_below zero a b ha hb =
    let ea : a ≡ 0 = omega arith in let eb : b ≡ 0 = omega arith in rw (ea, eb) refl
bit_and-bit_or_below (suc n) a b ha hb =
    let x = bit_or a b in
    let first = or_digit a b in
    let half : x / 2 ≡ bit_or (a / 2) (b / 2) = omega (arith, first) in
    let odd : x % 2 ≡ max (a % 2) (b % 2) = omega (arith, first) in
    let high = ap (λ t. bit_and t (b / 2)) half in
    let ih = bit_and-bit_or_below n (a / 2) (b / 2) (omega arith) (omega arith) in
    omega (arith, and_digit x b, high, odd, ih)

pub bit_and-bit_or : (a b : ℕ) → bit_and (bit_or a b) b ≡ b
bit_and-bit_or a b = bit_and-bit_or_below (max a b) a b (omega arith) (omega arith)

pub bit_and_self : (b : ℕ) → bit_and b b ≡ b
bit_and_self b = ap (λ t. bit_and t b) (sym (zero-bit_or b)) ∙ bit_and-bit_or 0 b
