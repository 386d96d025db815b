-- ===== src/Base/Bits.antt =====
-- Bits of machine words: what `|`, `&`, `<<` and `>>` do to the k-th bit of a number.
use Prim.Native.Nat.{ℕ, zero, suc, ◌+◌, ◌*◌, ◌/◌, ◌%◌, ◌^◌, ◌≤◌, ◌<◌, min, max}
use Prim.Native.Nat.{bit_and, bit_or, digits, bit_and-bitwise, bit_or-bitwise}
use mathlib.Core.Path.{◌≡◌, refl, sym, ap}
use native.Mathlib.Nat.{pow-suc, pow-zero, pow-succ', suc-add, mod-lt, mod-eq_of_lt, div-add-mod'}
use native.Mathlib.Nat.{mul-add-mod_self_right, div-div-eq-div-mul}
use native.Mathlib.Omega.{arith}

unfoldable pub bit : ℕ → ℕ → ℕ
bit zero a = a % 2
bit (suc k) a = bit k (a / 2)

pub bit_le : (k a : ℕ) → bit k a ≤ 1
unfolding bit
bit_le zero a = omega arith
bit_le (suc k) a = bit_le k (a / 2)

-- The native operations recurse on halves, with a fuel that does not matter once it covers the word.
digits_fuel :
    (z : ℕ → ℕ) (op : ℕ → ℕ → ℕ) (i j u v : ℕ)
    → u ≤ i
    → u ≤ j
    → digits z op i u v ≡ digits z op j u v
digits_fuel z op zero zero zero v hi hj = refl
digits_fuel z op zero (suc j) zero v hi hj = refl
digits_fuel z op (suc i) zero zero v hi hj = refl
digits_fuel z op (suc i) (suc j) zero v hi hj = refl
digits_fuel z op zero j (suc u) v hi hj = absurd (omega arith)
digits_fuel z op (suc i) zero (suc u) v hi hj = absurd (omega arith)
digits_fuel z op (suc i) (suc j) (suc u) v hi hj =
    let half = digits_fuel z op i j (suc u / 2) (v / 2) (omega arith) (omega arith) in
    omega (arith, half)

digits_halves :
    (z : ℕ → ℕ) (op : ℕ → ℕ → ℕ) (u v : ℕ)
    → digits z op (suc u) (suc u) v
      ≡ digits z op (suc u / 2) (suc u / 2) (v / 2) * 2 + op (suc u % 2) (v % 2)
digits_halves z op u v =
    let half = digits_fuel z op u (suc u / 2) (suc u / 2) (v / 2) (omega arith) (omega arith) in
    omega (arith, half)

bit_and_step : (u v : ℕ) → bit_and u v ≡ bit_and (u / 2) (v / 2) * 2 + min (u % 2) (v % 2)
bit_and_step zero v = omega (arith, bit_and-bitwise zero (v / 2), bit_and-bitwise zero v)
bit_and_step (suc u) v =
    let halves = digits_halves (λ _. 0) min u v in
    omega (arith, halves, bit_and-bitwise (suc u / 2) (v / 2), bit_and-bitwise (suc u) v)

bit_or_step : (u v : ℕ) → bit_or u v ≡ bit_or (u / 2) (v / 2) * 2 + max (u % 2) (v % 2)
bit_or_step zero v = omega (arith, bit_or-bitwise zero (v / 2), bit_or-bitwise zero v)
bit_or_step (suc u) v =
    let halves = digits_halves (λ rest. rest) max u v in
    omega (arith, halves, bit_or-bitwise (suc u / 2) (v / 2), bit_or-bitwise (suc u) v)

pub bit-bit_or : (k a b : ℕ) → bit k (bit_or a b) ≡ max (bit k a) (bit k b)
unfolding bit
bit-bit_or zero a b = omega (arith, bit_or_step a b)
bit-bit_or (suc k) a b =
    let half : bit_or a b / 2 ≡ bit_or (a / 2) (b / 2) = omega (arith, bit_or_step a b) in
    rw half (bit-bit_or k (a / 2) (b / 2))

-- The mask of no bits, by halving as often as the fuel allows.
masked_zero : (fuel word : ℕ) → word ≤ fuel → bit_and word 0 ≡ 0
masked_zero fuel zero enough = refl
masked_zero zero (suc word) enough = absurd (omega arith)
masked_zero (suc fuel) (suc word) enough =
    let half = masked_zero fuel (suc word / 2) (omega arith) in
    omega (arith, half, bit_and_step (suc word) 0)

pub pow_pos : (n : ℕ) → 0 < 2 ^ n
pow_pos zero = omega arith
pow_pos (suc n) = omega (arith, pow-suc 2 n, pow_pos n)

-- Doubling a power and a multiple of it.
shl_suc : (w s : ℕ) → w * 2 ^ suc s ≡ w * 2 ^ s * 2
shl_suc w s = omega (arith, ap (λ (t : ℕ). w * t) (pow-suc 2 s))

-- A mask of one bit keeps that bit.
pub bit_and-pow : (k a : ℕ) → bit_and a (2 ^ k) ≡ bit k a * 2 ^ k
unfolding bit
bit_and-pow zero a =
    omega (arith, bit_and_step a 1, masked_zero (a / 2) (a / 2) (omega arith), pow-zero 2)
bit_and-pow (suc k) a =
    let half : 2 ^ suc k / 2 ≡ 2 ^ k = omega (arith, pow-suc 2 k) in
    let even : 2 ^ suc k % 2 ≡ 0 = omega (arith, pow-suc 2 k) in
    let ih : bit_and (a / 2) (2 ^ suc k / 2) ≡ bit k (a / 2) * 2 ^ k =
      rw half (bit_and-pow k (a / 2)) in
    omega (arith, bit_and_step a (2 ^ suc k), ih, even, shl_suc (bit k (a / 2)) k)

pub bit-pow_self : (k : ℕ) → bit k (2 ^ k) ≡ 1
unfolding bit
bit-pow_self zero = refl
bit-pow_self (suc k) =
    let half : 2 ^ suc k / 2 ≡ 2 ^ k = omega (arith, pow-suc 2 k) in rw half (bit-pow_self k)

pub bit-zero : (k : ℕ) → bit k 0 ≡ 0
unfolding bit
bit-zero zero = refl
bit-zero (suc k) = bit-zero k

pub bit-pow_ne : (k j : ℕ) → (k ≡ j → ⊥) → bit k (2 ^ j) ≡ 0
unfolding bit
bit-pow_ne zero zero h = absurd (h refl)
bit-pow_ne zero (suc j) h = omega (arith, pow-suc 2 j)
bit-pow_ne (suc k) zero h = bit-zero k
bit-pow_ne (suc k) (suc j) h =
    let half : 2 ^ suc j / 2 ≡ 2 ^ j = omega (arith, pow-suc 2 j) in
    rw half (bit-pow_ne k j (λ e. h (ap suc e)))

-- `w << s` before the word is cut off.
pub bit-shl : (s k w : ℕ) → bit (s + k) (w * 2 ^ s) ≡ bit k w
unfolding bit
bit-shl zero k w =
    let a : 0 + k ≡ k = omega arith in let b : w * 2 ^ 0 ≡ w = omega arith in rw (a, b)
bit-shl (suc s) k w =
    let half : w * 2 ^ suc s / 2 ≡ w * 2 ^ s = omega (arith, shl_suc w s) in
    rw suc-add (rw (half, bit) (bit-shl s k w))

pub bit-shl_low : (s k w : ℕ) → k < s → bit k (w * 2 ^ s) ≡ 0
unfolding bit
bit-shl_low zero k w h = absurd (omega arith)
bit-shl_low (suc s) zero w h = omega (arith, shl_suc w s)
bit-shl_low (suc s) (suc k) w h =
    let half : w * 2 ^ suc s / 2 ≡ w * 2 ^ s = omega (arith, shl_suc w s) in
    rw half (bit-shl_low s k w (omega arith))

half_mod : (w p : ℕ) → 0 < p → (w % (p * 2) % 2 ≡ w % 2) × (w % (p * 2) / 2 ≡ w / 2 % p)
half_mod w p h =
    let q : ℕ = w / (p * 2) in
    let split : q * (p * 2) + w % (p * 2) ≡ w = div-add-mod' w (p * 2) in
    let small : w % (p * 2) < p * 2 = mod-lt w (omega arith) in
    let half : w / 2 ≡ q * p + w % (p * 2) / 2 = omega arith in
    (omega arith, sym (rw (half, mul-add-mod_self_right) (mod-eq_of_lt (omega arith))))

-- A word of n bits.
pub bit-mod : (n k w : ℕ) → k < n → bit k (w % 2 ^ n) ≡ bit k w
unfolding bit
bit-mod zero k w h = absurd (omega arith)
bit-mod (suc n) zero w h = rw pow-suc (half_mod w (2 ^ n) (pow_pos n)).0
bit-mod (suc n) (suc k) w h =
    rw (pow-suc 2 n, (half_mod w (2 ^ n) (pow_pos n)).1) (bit-mod n k (w / 2) (omega arith))

pub bit-shr : (s k w : ℕ) → bit k (w / 2 ^ s) ≡ bit (s + k) w
unfolding bit
bit-shr zero k w =
    let a : 0 + k ≡ k = omega arith in let b : w / 2 ^ 0 ≡ w = omega arith in rw (a, b)
bit-shr (suc s) k w =
    let halves : w / 2 ^ suc s ≡ w / 2 / 2 ^ s =
      rw (pow-succ' 2 s) (sym (div-div-eq-div-mul w 2 (2 ^ s))) in
    rw suc-add (rw halves (bit-shr s k (w / 2)))

pub bit_high : (n k w : ℕ) → w < 2 ^ n → n ≤ k → bit k w ≡ 0
unfolding bit
bit_high zero k w h le = let none_left : w ≡ 0 = omega arith in rw none_left (bit-zero k)
bit_high (suc n) zero w h le = absurd (omega arith)
bit_high (suc n) (suc k) w h le = bit_high n k (w / 2) (omega (arith, pow-suc 2 n)) (omega arith)

pub bit_or-lt : (n a b : ℕ) → a < 2 ^ n → b < 2 ^ n → bit_or a b < 2 ^ n
bit_or-lt zero a b ha hb =
    let a0 : a ≡ 0 = omega arith in let b0 : b ≡ 0 = omega arith in rw (a0, b0) (omega arith)
bit_or-lt (suc n) a b ha hb =
    let half : bit_or (a / 2) (b / 2) < 2 ^ n =
      bit_or-lt n (a / 2) (b / 2) (omega (arith, pow-suc 2 n)) (omega (arith, pow-suc 2 n)) in
    omega (arith, bit_or_step a b, pow-suc 2 n, half)
