-- ===== src/Replay/Shift.antt =====
-- What `shift` of crates/protocol/src/data.rs does to each bit of the window.
use xs_nexus.Base.{
  ℕ, zero, suc, ◌+◌, ◌-◌, ◌*◌, ◌/◌, ◌%◌, ◌^◌, ◌≤◌, ◌<◌, max, ◌≡◌, refl, ◌∙◌, ◌≢◌, List, [], ◌∷◌,
  ltb, leb, ◌==◌, if◌then◌else◌, get_or, set, length, replicate, All, arith, length-set,
  get_or-set_self, get_or-set_ne, get_or-replicate, get_or-cons, inl, inr, Bool-cases, ltb→lt,
  lt→ltb, not, ◌&&◌,
}
use native.Mathlib.Nat.{zero-max, div-le_self}
use xs_nexus.Base.Bits.{
  bit, bit-bit_or, bit-zero, bit-shl, bit-shl_low, bit-mod, bit-shr, bit_high, bit_or-lt,
}
use xs_nexus.Replay.{or_at, carry_into, shift_loop, shift}

-- Bit `k` of word `t`, and bit `i` of the whole window.
abbrev pub word_bit : List ℕ → ℕ → ℕ → ℕ
word_bit words t k = bit k (get_or words t 0)

abbrev pub IsU64 : ℕ → Type 0
IsU64 w = w < 2 ^ 64

abbrev pub window_bit : List ℕ → ℕ → ℕ
window_bit words i = word_bit words (i / 64) (i % 64)

pub length-or_at : (words : List ℕ) (i mask : ℕ) → length (or_at words i mask) ≡ length words
unfolding or_at
length-or_at words i mask = length-set words i _

All-set : (words : List ℕ) (i v : ℕ) → All IsU64 words → IsU64 v → All IsU64 (set words i v)
All-set [] i v h hv = tt
All-set (w ∷ ws) zero v h hv = (hv, h.1)
All-set (w ∷ ws) (suc i) v h hv = (h.0, All-set ws i v h.1 hv)

pub get_or-IsU64 : (ws : List ℕ) (i : ℕ) → All IsU64 ws → IsU64 (get_or ws i 0)
get_or-IsU64 [] i h = omega arith
get_or-IsU64 (w ∷ ws) zero h = h.0
get_or-IsU64 (w ∷ ws) (suc i) h = get_or-IsU64 ws i h.1

pub or_at-IsU64 :
    (words : List ℕ) (i mask : ℕ) → All IsU64 words → IsU64 mask → All IsU64 (or_at words i mask)
unfolding or_at
or_at-IsU64 words i mask h hm =
    All-set words i _ h (bit_or-lt 64 (get_or words i 0) mask (get_or-IsU64 words i h) hm)

pub word_bit-or_at_self :
    (words : List ℕ) (i mask k : ℕ)
    → i < length words
    → word_bit (or_at words i mask) i k ≡ max (word_bit words i k) (bit k mask)
unfolding or_at
word_bit-or_at_self words i mask k h =
    rw (get_or-set_self words i _ 0 h) (bit-bit_or k (get_or words i 0) mask)

pub word_bit-or_at_ne :
    (words : List ℕ) (i t mask k : ℕ)
    → i ≢ t
    → word_bit (or_at words i mask) t k ≡ word_bit words t k
unfolding or_at
word_bit-or_at_ne words i t mask k h = rw (get_or-set_ne words i t _ 0 h)

length-carry_into :
    (target bs w : ℕ) (words : List ℕ) → length (carry_into target bs w words) ≡ length words
unfolding carry_into
length-carry_into target bs w words = elim (Bool-cases (not (bs == 0) && ltb (target + 1) 16)) [
  | inl e ↦ rw e (length-or_at words (target + 1) _)
  | inr e ↦ rw e
]

-- What the remaining words, the first of them at index `src`, put at bit `k` of word `t`.
low_part : ℕ → ℕ → List ℕ → ℕ → ℕ → ℕ → ℕ
low_part ws bs rest src t k =
    if leb (src + ws) t then bit k (get_or rest (t - (src + ws)) 0 * 2 ^ bs % 2 ^ 64) else 0

high_part : ℕ → ℕ → List ℕ → ℕ → ℕ → ℕ → ℕ
high_part ws bs rest src t k =
    if bs == 0
    then 0
    else if ltb (src + ws) t
    then bit k (get_or rest (t - (src + ws) - 1) 0 / 2 ^ (64 - bs))
    else 0

get_or_head : (w : ℕ) (rest : List ℕ) (i : ℕ) → i ≡ 0 → get_or (w ∷ rest) i 0 ≡ w
get_or_head w rest i h = rw h

-- One word more: the head is read at its own index only.
low_part-cons :
    (ws bs w : ℕ) (rest : List ℕ) (src t k : ℕ)
    → low_part ws bs (w ∷ rest) src t k
      ≡ (if t == src + ws then bit k (w * 2 ^ bs % 2 ^ 64) else low_part ws bs rest (src + 1) t k)
unfolding low_part
low_part-cons ws bs w rest src t k =
    let next : t - (src + 1 + ws) ≡ t - (src + ws) - 1 = omega arith in
    rw next
      (ground (arith, get_or-cons w rest (t - (src + ws)) 0, get_or_head w rest (t - (src + ws))))

high_part-cons :
    (ws bs w : ℕ) (rest : List ℕ) (src t k : ℕ)
    → high_part ws bs (w ∷ rest) src t k ≡ (
        if bs == 0
        then 0
        else if t == src + ws + 1
        then bit k (w / 2 ^ (64 - bs))
        else high_part ws bs rest (src + 1) t k)
unfolding high_part
high_part-cons ws bs w rest src t k =
    let next : t - (src + 1 + ws) - 1 ≡ t - (src + ws) - 1 - 1 = omega arith in
    rw next (
      ground
        (arith, get_or-cons w rest (t - (src + ws) - 1) 0, get_or_head w rest (t - (src + ws) - 1)))

-- The words after one round of the loop.
round : ℕ → ℕ → ℕ → List ℕ → List ℕ
round target bs w words = carry_into target bs w (or_at words target (w * 2 ^ bs % 2 ^ 64))

length-round : (target bs w : ℕ) (words : List ℕ) → length (round target bs w words) ≡ length words
unfolding round
length-round target bs w words = length-carry_into target bs w _ ∙ length-or_at words target _

word_bit-carry_into :
    (target bs w : ℕ) (words : List ℕ) (t k : ℕ)
    → length words ≡ 16
    → t < 16
    → word_bit (carry_into target bs w words) t k
      ≡ max
          (word_bit words t k)
          (if bs == 0 then 0 else if t == target + 1 then bit k (w / 2 ^ (64 - bs)) else 0)
unfolding carry_into
word_bit-carry_into target bs w words t k hl ht = ground (
  arith,
  word_bit-or_at_self words (target + 1) (w / 2 ^ (64 - bs)) k,
  word_bit-or_at_ne words (target + 1) t (w / 2 ^ (64 - bs)) k,
)

word_bit-round :
    (target bs w : ℕ) (words : List ℕ) (t k : ℕ)
    → length words ≡ 16
    → t < 16
    → target < 16
    → word_bit (round target bs w words) t k
      ≡ max (word_bit words t k) (
          max
            (if t == target then bit k (w * 2 ^ bs % 2 ^ 64) else 0)
            (if bs == 0 then 0 else if t == target + 1 then bit k (w / 2 ^ (64 - bs)) else 0))
unfolding round
word_bit-round target bs w words t k hl ht hg = ground (
  arith,
  word_bit-carry_into target bs w (or_at words target (w * 2 ^ bs % 2 ^ 64)) t k
      (length-or_at words target _ ∙ hl) ht,
  word_bit-or_at_self words target (w * 2 ^ bs % 2 ^ 64) k,
  word_bit-or_at_ne words target t (w * 2 ^ bs % 2 ^ 64) k,
)

low_part_out :
    (ws bs : ℕ) (rest : List ℕ) (src t k : ℕ) → t < src + ws → low_part ws bs rest src t k ≡ 0
unfolding low_part
low_part_out ws bs rest src t k h = ground arith

high_part_out :
    (ws bs : ℕ) (rest : List ℕ) (src t k : ℕ) → t ≤ src + ws → high_part ws bs rest src t k ≡ 0
unfolding high_part
high_part_out ws bs rest src t k h = ground arith

high_part_zero :
    (ws bs : ℕ) (rest : List ℕ) (src t k : ℕ) → bs ≡ 0 → high_part ws bs rest src t k ≡ 0
unfolding high_part
high_part_zero ws bs rest src t k h = ground arith

shift_loop_step :
    (ws bs w : ℕ) (rest : List ℕ) (src : ℕ) (words : List ℕ)
    → shift_loop ws bs (w ∷ rest) src words ≡ (
        if leb 16 (src + ws)
        then words
        else shift_loop ws bs rest (src + 1) (round (src + ws) bs w words))
unfolding shift_loop round
shift_loop_step ws bs w rest src words = refl

-- The loop over the remaining words adds what they put at each bit.
shift_loop_lem :
    (ws bs : ℕ) (rest : List ℕ) (src : ℕ) (words : List ℕ) (t k : ℕ)
    → length words ≡ 16
    → t < 16
    → word_bit (shift_loop ws bs rest src words) t k
      ≡ max (word_bit words t k) (max (low_part ws bs rest src t k) (high_part ws bs rest src t k))
shift_loop_lem ws bs [] src words t k hl ht =
    unfold shift_loop low_part high_part in ground (arith, bit-zero k)
shift_loop_lem ws bs (w ∷ rest) src words t k hl ht = elim (Bool-cases (leb 16 (src + ws))) [
  | inl e ↦
      rw (shift_loop_step ws bs w rest src words, e)
        (ground
          (arith, low_part_out ws bs (w ∷ rest) src t k, high_part_out ws bs (w ∷ rest) src t k))
  | inr e ↦
      let hl' = length-round (src + ws) bs w words ∙ hl in
      rw
        (
          shift_loop_step ws bs w rest src words,
          e,
          shift_loop_lem ws bs rest (src + 1) (round (src + ws) bs w words) t k hl' ht,
          word_bit-round (src + ws) bs w words t k hl ht (ground arith),
          low_part-cons ws bs w rest src t k,
          high_part-cons ws bs w rest src t k,
        )
        (ground (
          arith,
          low_part_out ws bs rest (src + 1) t k,
          high_part_out ws bs rest (src + 1) t k,
          high_part_zero ws bs rest (src + 1) t k,
        ))
]

shr-le : (w s : ℕ) → w / 2 ^ s ≤ w
shr-le w s = div-le_self w (2 ^ s)

round-IsU64 :
    (target bs w : ℕ) (words : List ℕ)
    → All IsU64 words
    → IsU64 w
    → All IsU64 (round target bs w words)
unfolding round carry_into
round-IsU64 target bs w words h hw =
    let moved = or_at-IsU64 words target (w * 2 ^ bs % 2 ^ 64) h (omega arith) in
    elim (Bool-cases (not (bs == 0) && ltb (target + 1) 16)) [
      | inl e ↦ rw e (or_at-IsU64 _ (target + 1) _ moved (omega (arith, shr-le w (64 - bs))))
      | inr e ↦ rw e moved
    ]

shift_loop-IsU64 :
    (ws bs : ℕ) (rest : List ℕ) (src : ℕ) (words : List ℕ)
    → All IsU64 rest
    → All IsU64 words
    → All IsU64 (shift_loop ws bs rest src words)
shift_loop-IsU64 ws bs [] src words hr h = unfold shift_loop in h
shift_loop-IsU64 ws bs (w ∷ rest) src words hr h = elim (Bool-cases (leb 16 (src + ws))) [
  | inl e ↦ rw (shift_loop_step ws bs w rest src words, e) h
  | inr e ↦
      rw (shift_loop_step ws bs w rest src words, e)
        (shift_loop-IsU64 ws bs rest (src + 1) _ hr.1 (round-IsU64 (src + ws) bs w words h hr.0))
]

length-shift_loop :
    (ws bs : ℕ) (rest : List ℕ) (src : ℕ) (words : List ℕ)
    → length (shift_loop ws bs rest src words) ≡ length words
length-shift_loop ws bs [] src words = unfold shift_loop in refl
length-shift_loop ws bs (w ∷ rest) src words = elim (Bool-cases (leb 16 (src + ws))) [
  | inl e ↦ rw (shift_loop_step ws bs w rest src words, e)
  | inr e ↦
      rw (shift_loop_step ws bs w rest src words, e)
        (length-shift_loop ws bs rest (src + 1) _ ∙ length-round (src + ws) bs w words)
]

pub length-shift : (distance : ℕ) (words : List ℕ) → length (shift distance words) ≡ 16
unfolding shift
length-shift d words = elim (Bool-cases (leb 1024 d)) [
  | inl far ↦ rw far
  | inr near ↦ rw near (length-shift_loop (d / 64) (d % 64) words 0 (replicate 16 0))
]

pub shift-IsU64 :
    (distance : ℕ) (words : List ℕ) → All IsU64 words → All IsU64 (shift distance words)
unfolding shift
shift-IsU64 d words h = elim (Bool-cases (leb 1024 d)) [
  | inl far ↦ rw far (omega arith)
  | inr near ↦ rw near (shift_loop-IsU64 (d / 64) (d % 64) words 0 (replicate 16 0) h (omega arith))
]

-- A bit of `word << s` in a `u64`.
bit-shl_word :
    (s k w : ℕ) → k < 64 → bit k (w * 2 ^ s % 2 ^ 64) ≡ (if ltb k s then 0 else bit (k - s) w)
bit-shl_word s k w h = elim (Bool-cases (ltb k s)) [
  | inl low ↦ rw low (bit-mod 64 k (w * 2 ^ s) h ∙ bit-shl_low s k w (ltb→lt k s low))
  | inr high ↦
      let split : s + (k - s) ≡ k = ground arith in
      rw high (bit-mod 64 k (w * 2 ^ s) h ∙ rw split at (bit-shl s (k - s) w))
]

-- A bit of `word >> (64 - s)`.
bit-shr_word :
    (s k w : ℕ) → IsU64 w → bit k (w / 2 ^ (64 - s)) ≡ (if ltb k s then bit (64 - s + k) w else 0)
bit-shr_word s k w h = bit-shr (64 - s) k w ∙ ground (arith, bit_high 64 (64 - s + k) w)

bit_cleared : (t k : ℕ) → word_bit (replicate 16 0) t k ≡ 0
bit_cleared t k = rw (get_or-replicate {A = ℕ} 16 t 0) (bit-zero k)

-- Bit `i` lies in word `i / 64`, and a distance of `64 * ws + bs` moves it there from two words.
low_part_at :
    (words : List ℕ) (ws bs t k : ℕ)
    → k < 64
    → low_part ws bs words 0 t k
      ≡ (if leb ws t then if ltb k bs then 0 else bit (k - bs) (get_or words (t - ws) 0) else 0)
unfolding low_part
low_part_at words ws bs t k h =
    let start : 0 + ws ≡ ws = omega arith in
    rw (start, bit-shl_word bs k (get_or words (t - ws) 0) h)

high_part_at :
    (words : List ℕ) (ws bs t k : ℕ)
    → All IsU64 words
    → high_part ws bs words 0 t k ≡ (
        if bs == 0
        then 0
        else if ltb ws t
        then if ltb k bs then bit (64 - bs + k) (get_or words (t - ws - 1) 0) else 0
        else 0)
unfolding high_part
high_part_at words ws bs t k h =
    let start : 0 + ws ≡ ws = omega arith in
    rw (start, bit-shr_word bs k (get_or words (t - ws - 1) 0) (get_or-IsU64 words (t - ws - 1) h))

-- Where bit `i - distance` of the old window lies.
old_place :
    (words : List ℕ) (i d t k : ℕ)
    → (i - d) / 64 ≡ t
    → (i - d) % 64 ≡ k
    → window_bit words (i - d) ≡ bit k (get_or words t 0)
old_place words i d t k p q = rw (p, q)

parts_at :
    (words : List ℕ) (i d : ℕ)
    → max
        (if leb (d / 64) (i / 64)
          then if ltb (i % 64) (d % 64)
            then 0
            else bit (i % 64 - d % 64) (get_or words (i / 64 - d / 64) 0)
          else 0)
        (if d % 64 == 0
          then 0
          else if ltb (d / 64) (i / 64)
          then if ltb (i % 64) (d % 64)
            then bit (64 - d % 64 + i % 64) (get_or words (i / 64 - d / 64 - 1) 0)
            else 0
          else 0)
      ≡ (if ltb i d then 0 else window_bit words (i - d))
parts_at words i d = ground (
  arith,
  old_place words i d (i / 64 - d / 64) (i % 64 - d % 64),
  old_place words i d (i / 64 - d / 64 - 1) (64 - d % 64 + i % 64),
)

-- Bit `i` of the shifted window is bit `i - distance` of the old one, and 0 below `distance`.
pub window_bit-shift :
    (distance : ℕ) (words : List ℕ) (i : ℕ)
    → All IsU64 words
    → i < 1024
    → window_bit (shift distance words) i
      ≡ (if ltb i distance then 0 else window_bit words (i - distance))
unfolding shift
window_bit-shift d words i hw hi = elim (Bool-cases (leb 1024 d)) [
  | inl far ↦ rw far (rw (lt→ltb i d (ground arith)) (bit_cleared (i / 64) (i % 64)))
  | inr near ↦
      rw
        (
          near,
          shift_loop_lem (d / 64) (d % 64) words 0 (replicate 16 0) (i / 64) (i % 64) refl
              (omega arith),
        )
        (rw
          (
            bit_cleared (i / 64) (i % 64),
            zero-max,
            low_part_at words (d / 64) (d % 64) (i / 64) (i % 64) (omega arith),
            high_part_at words (d / 64) (d % 64) (i / 64) (i % 64) hw,
          )
          (parts_at words i d))
]
