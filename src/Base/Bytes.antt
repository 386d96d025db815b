-- ===== src/Base/Bytes.antt =====
-- Big-endian byte strings. An array of bytes that the code only copies and compares, such as a
-- `[u8; 16]`, is the number that its bytes spell: `be n` writes it and `from_be` reads it.
use Prim.Native.Nat.{ℕ, zero, suc, ◌+◌, ◌-◌, ◌*◌, ◌/◌, ◌%◌, ◌^◌, ◌≤◌, ◌<◌}
use mathlib.Core.Path.{◌≡◌, refl, sym, ap, ap₂, ◌∙◌}
use mathlib.Core.List.{List, [], ◌∷◌, ◌++◌}
use native.Mathlib.Nat.{
  pow-suc, div-add-mod', mod-lt, div-eq_of_lt, mod-eq_of_lt, mul-add-mod_self_right,
}
use native.Mathlib.Nat.{mul-add-div_right, suc-add}
use native.Mathlib.Omega.{arith}
use xs_nexus.Base.Lists.{
  all, length, get_or, take, drop, All, All-take, All-drop, length-take, length-drop,
}
use xs_nexus.Base.Tests.{◌==◌, ltb, &&-true, ltb→lt}
use mathlib.Core.Bool.{Bool, true, false, ◌&&◌}

abbrev pub IsByte : ℕ → Type 0
IsByte b = b < 256

-- `&encoded[i..j]`
abbrev pub slice : ℕ → ℕ → List ℕ → List ℕ
slice i j l = take (j - i) (drop i l)

-- `value.to_be_bytes()` of an n-byte word.
unfoldable pub be : ℕ → ℕ → List ℕ
be zero v = []
be (suc n) v = (v / 256 ^ n % 256) ∷ be n v

from_be_onto : ℕ → List ℕ → ℕ
from_be_onto acc [] = acc
from_be_onto acc (b ∷ bs) = from_be_onto (acc * 256 + b) bs

-- `uN::from_be_bytes(bytes)`
unfoldable pub from_be : List ℕ → ℕ
unfolding from_be_onto
from_be bytes = from_be_onto 0 bytes

pub length-be : (n v : ℕ) → length (be n v) ≡ n
unfolding be
length-be zero v = refl
length-be (suc n) v = ap suc (length-be n v)

pub be-IsByte : (n v : ℕ) → All IsByte (be n v)
unfolding be
be-IsByte zero v = tt
be-IsByte (suc n) v = (omega arith, be-IsByte n v)

pub pow256_pos : (n : ℕ) → 0 < 256 ^ n
pow256_pos zero = omega arith
pow256_pos (suc n) = omega (arith, pow-suc 256 n, pow256_pos n)

digit_bound : (r m p : ℕ) → r < 256 → m < p → r * p + m < p * 256
digit_bound r m p hr hm = grind arith

split_mod : (v p : ℕ) → 0 < p → v % (p * 256) ≡ v / p % 256 * p + v % p
split_mod v p hp =
    let q : ℕ = v / p / 256 in
    let r : ℕ = v / p % 256 in
    let outer : v / p ≡ q * 256 + r = omega arith in
    let whole : v ≡ q * (p * 256) + (r * p + v % p) =
      omega (arith, div-add-mod' v p, ap (λ (t : ℕ). t * p) outer) in
    ap (λ (t : ℕ). t % (p * 256)) whole
    ∙ mul-add-mod_self_right q (p * 256) (r * p + v % p)
    ∙ mod-eq_of_lt (digit_bound r (v % p) p (omega arith) (mod-lt v hp))

from_be_onto-be : (n acc v : ℕ) → from_be_onto acc (be n v) ≡ acc * 256 ^ n + v % 256 ^ n
unfolding from_be_onto be
from_be_onto-be zero acc v = omega arith
from_be_onto-be (suc n) acc v =
    from_be_onto-be n _ v
    ∙ omega (
      arith,
      ap (λ (t : ℕ). acc * t) (pow-suc 256 n),
      ap (λ (t : ℕ). v % t) (pow-suc 256 n),
      split_mod v (256 ^ n) (pow256_pos n),
    )

-- What was written in n bytes is read back, if it fits.
pub from_be-be : (n v : ℕ) → v < 256 ^ n → from_be (be n v) ≡ v
unfolding from_be
from_be-be n v h = from_be_onto-be n 0 v ∙ omega (arith, mod-eq_of_lt h)

from_be_onto_lem :
    (acc : ℕ) (l : List ℕ) → from_be_onto acc l ≡ acc * 256 ^ length l + from_be_onto 0 l
unfolding from_be_onto
from_be_onto_lem acc [] = omega arith
from_be_onto_lem acc (b ∷ bs) = omega (
  arith,
  from_be_onto_lem (acc * 256 + b) bs,
  from_be_onto_lem (0 + b) bs,
  ap (λ (t : ℕ). acc * t) (pow-suc 256 (length bs)),
)

pub from_be-lt : (l : List ℕ) → All IsByte l → from_be l < 256 ^ length l
unfolding from_be from_be_onto
from_be-lt [] h = omega arith
from_be-lt (b ∷ bs) h = omega (
  arith,
  from_be_onto_lem (0 + b) bs,
  digit_bound b (from_be_onto 0 bs) (256 ^ length bs) h.0 (from_be-lt bs h.1),
  pow-suc 256 (length bs),
)

-- What lies above n bytes is not written.
be_above : (n k v : ℕ) → be n (k * 256 ^ n + v) ≡ be n v
unfolding be
be_above zero k v = refl
be_above (suc n) k v =
    let step : k * 256 ^ suc n + v ≡ k * 256 * 256 ^ n + v =
      omega (arith, ap (λ (t : ℕ). k * t) (pow-suc 256 n)) in
    let digit : (k * 256 * 256 ^ n + v) / 256 ^ n % 256 ≡ v / 256 ^ n % 256 =
      rw (mul-add-div_right (pow256_pos n) (k * 256) v) (omega arith) in
    rw step (ap₂ ◌∷◌ digit (be_above n (k * 256) v))

-- Bytes are determined by the number that they spell.
pub be-from_be : (l : List ℕ) → All IsByte l → be (length l) (from_be l) ≡ l
unfolding be from_be from_be_onto
be-from_be [] h = refl
be-from_be (b ∷ bs) h =
    let p : ℕ = 256 ^ length bs in
    let small : from_be bs < p = from_be-lt bs h.1 in
    let whole : from_be_onto (0 + b) bs ≡ b * p + from_be_onto 0 bs =
      omega (arith, from_be_onto_lem (0 + b) bs) in
    let digit : (b * p + from_be_onto 0 bs) / p % 256 ≡ b =
      rw (mul-add-div_right (pow256_pos (length bs)) b (from_be_onto 0 bs))
        (omega (arith, h.0, div-eq_of_lt small)) in
    rw whole (ap₂ ◌∷◌ digit (be_above (length bs) b (from_be_onto 0 bs) ∙ be-from_be bs h.1))

take_nil : (n : ℕ) → ◌≡◌ {A = List ℕ} [] (take n [])
take_nil zero = refl
take_nil (suc n) = refl

drop_nil : (n : ℕ) → ◌≡◌ {A = List ℕ} [] (drop n [])
drop_nil zero = refl
drop_nil (suc n) = refl

pub take_add : (a b : ℕ) (l : List ℕ) → take (a + b) l ≡ take a l ++ take b (drop a l)
take_add zero b l = let e : 0 + b ≡ b = omega arith in rw e
take_add (suc a) b [] = rw suc-add (take_nil b)
take_add (suc a) b (x ∷ l) = rw suc-add (ap (◌∷◌ x) (take_add a b l))

pub drop_add : (a b : ℕ) (l : List ℕ) → drop (a + b) l ≡ drop b (drop a l)
drop_add zero b l = let e : 0 + b ≡ b = omega arith in rw e
drop_add (suc a) b [] = rw suc-add (drop_nil b)
drop_add (suc a) b (x ∷ l) = rw suc-add (drop_add a b l)

-- Adjacent slices join.
pub slice-append :
    (i j k : ℕ) (l : List ℕ) → i ≤ j → j ≤ k → slice i j l ++ slice j k l ≡ slice i k l
slice-append i j k l h g =
    let whole : k - i ≡ (j - i) + (k - j) = omega arith in
    let start : j ≡ i + (j - i) = omega arith in
    let later : drop j l ≡ drop (j - i) (drop i l) =
      ap (λ (t : ℕ). drop t l) start ∙ drop_add i (j - i) l in
    sym (
      ap (λ (t : ℕ). take t (drop i l)) whole
      ∙ take_add (j - i) (k - j) (drop i l)
      ∙ ap (λ (t : List ℕ). slice i j l ++ take (k - j) t) (sym later))

pub slice-IsByte : (i j : ℕ) (l : List ℕ) → All IsByte l → All IsByte (slice i j l)
slice-IsByte i j l h = All-take IsByte (j - i) (drop i l) (All-drop IsByte i l h)

pub length-slice : (i j : ℕ) (l : List ℕ) → j ≤ length l → length (slice i j l) ≡ j - i
length-slice i j l h = omega (arith, length-take {0} (j - i) (drop i l), length-drop {0} i l)

-- A field that lies in the bytes is written back as it was.
pub be-slice :
    (i j : ℕ) (l : List ℕ)
    → All IsByte l
    → j ≤ length l
    → be (j - i) (from_be (slice i j l)) ≡ slice i j l
be-slice i j l h le =
    ap (λ (t : ℕ). be t (from_be (slice i j l))) (sym (length-slice i j l le))
    ∙ be-from_be (slice i j l) (slice-IsByte i j l h)

pub from_be-slice-lt :
    (i j : ℕ) (l : List ℕ) → All IsByte l → j ≤ length l → from_be (slice i j l) < 256 ^ (j - i)
from_be-slice-lt i j l h le =
    rw (length-slice i j l le) at (from_be-lt (slice i j l) (slice-IsByte i j l h))

-- `==` on byte slices.
unfoldable pub bytes_eq : List ℕ → List ℕ → Bool
bytes_eq [] [] = true
bytes_eq [] (y ∷ ys) = false
bytes_eq (x ∷ xs) [] = false
bytes_eq (x ∷ xs) (y ∷ ys) = x == y && bytes_eq xs ys

pub bytes_eq→eq : (xs ys : List ℕ) → bytes_eq xs ys ≡ true → xs ≡ ys
unfolding bytes_eq
bytes_eq→eq [] [] h = refl
bytes_eq→eq [] (y ∷ ys) h = cc
bytes_eq→eq (x ∷ xs) [] h = cc
bytes_eq→eq (x ∷ xs) (y ∷ ys) h = ground (arith, bytes_eq→eq xs ys)

pub bytes_eq_self : (xs : List ℕ) → bytes_eq xs xs ≡ true
unfolding bytes_eq
bytes_eq_self [] = refl
bytes_eq_self (x ∷ xs) = ground (arith, bytes_eq_self xs)

drop_step : (i : ℕ) (l : List ℕ) → i < length l → drop i l ≡ get_or l i 0 ∷ drop (suc i) l
drop_step i [] h = absurd (omega arith)
drop_step zero (x ∷ l) h = refl
drop_step (suc i) (x ∷ l) h = drop_step i l (omega arith)

-- A canonical encoding is put together from its end: a field, or a byte, before what is done.
module _ (l rest : List ℕ) (i j k : ℕ) where
  pub be-join :
      All IsByte l
      → i ≤ j
      → j ≤ k
      → k ≤ length l
      → rest ≡ slice j k l
      → be (j - i) (from_be (slice i j l)) ++ rest ≡ slice i k l
  be-join h ij jk kl e = rw (e, be-slice i j l h (omega arith)) (slice-append i j k l ij jk)

  pub slice-join :
      (piece : List ℕ)
      → i ≤ j
      → j ≤ k
      → piece ≡ slice i j l
      → rest ≡ slice j k l
      → piece ++ rest ≡ slice i k l
  slice-join piece ij jk p e = rw (e, p) (slice-append i j k l ij jk)

  pub byte-join :
      (b : ℕ)
      → j ≡ suc i
      → j ≤ k
      → k ≤ length l
      → get_or l i 0 ≡ b
      → rest ≡ slice j k l
      → b ∷ rest ≡ slice i k l
  byte-join b ij jk kl p e =
      let more : k - i ≡ suc (k - suc i) = omega arith in
      rw (e, ij, ← p) (sym (rw (more, drop_step i l (omega arith))))

-- The bytes of a given string are tested.
pub bytes_checked : (l : List ℕ) → all (λ b. ltb b 256) l ≡ true → All IsByte l
bytes_checked [] h = tt
bytes_checked (b ∷ l) h =
    let (small, rest) = &&-true (ltb b 256) _ h in (ltb→lt b 256 small, bytes_checked l rest)
