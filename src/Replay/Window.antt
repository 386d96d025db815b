-- ===== src/Replay/Window.antt =====
-- The bitmap window of crates/protocol/src/data.rs against its specification: a log of every
-- sequence number that was accepted.
use xs_nexus.Base.{
  ℕ, zero, suc, ◌-◌, ◌*◌, ◌/◌, ◌%◌, ◌^◌, ◌≤◌, ◌<◌, max, ◌≡◌, refl, sym, ◌∙◌, ap, Bool, true, false,
  List, [], ◌∷◌, ltb, leb, ◌==◌, if◌then◌else◌, get_or, set, length, replicate, All, arith,
  get_or-replicate, inl, inr, Bool-cases, not, ◌&&◌, Option, some, none, ◌||◌, ensure, ltb→lt,
  Option-cases, ◌⊎◌,
}
use native.Mathlib.Nat.{pow-le-pow_right}
use xs_nexus.Base.Bits.{bit, bit_le, bit-zero, bit_and-pow, bit-pow_self, bit-pow_ne, pow_pos}
use xs_nexus.Replay.{
  ReplayWindow, max_sequence_advance, bit_is_set, or_at, shift, precheck, precheck_from,
  record_from, commit, new,
}
use xs_nexus.Replay.Shift.{
  window_bit, IsU64, length-or_at, length-shift, shift-IsU64, or_at-IsU64, word_bit-or_at_self,
  word_bit-or_at_ne, window_bit-shift,
}

-- The specification's state: the accepted numbers, newest first.
unfoldable pub contains : ℕ → List ℕ → Bool
contains x [] = false
contains x (y ∷ ys) = y == x || contains x ys

pub maximum : List ℕ → Option ℕ
maximum [] = none
maximum (x ∷ xs) = elim (maximum xs) [ none ↦ some x | some m ↦ some (max x m) ]

-- What the specification admits: nothing more than 2 ^ 20 past the highest number so far, nothing
-- 1024 or more behind it, nothing twice.
unfoldable pub admits_from : Option ℕ → List ℕ → ℕ → Bool
admits_from none log s = leb s max_sequence_advance
admits_from (some h) log s =
    if ltb h s then leb (s - h) max_sequence_advance else ltb (h - s) 1024 && not (contains s log)

unfoldable pub admits : List ℕ → ℕ → Bool
unfolding admits_from
admits log s = admits_from (maximum log) log s

abbrev flag : Bool → ℕ
flag true = 1
flag false = 0

-- The window `r` stands for the log.
pub record Tracks (r : ReplayWindow) (log : List ℕ) : Type 0 where
  pub sized : length r.words ≡ 16
  pub word_sized : All IsU64 r.words
  pub top : r.highest ≡ maximum log
  pub bits :
      (h i : ℕ)
      → maximum log ≡ some h
      → i < 1024
      → i ≤ h
      → window_bit r.words i ≡ flag (contains (h - i) log)
  pub clear : maximum log ≡ none → r.words ≡ replicate 16 0

maximum-none : (log : List ℕ) → maximum log ≡ none → log ≡ []
unfolding maximum
maximum-none [] e = refl
maximum-none (x ∷ xs) e = ground arith

not_contains_above :
    (log : List ℕ) (h s : ℕ) → maximum log ≡ some h → h < s → contains s log ≡ false
unfolding maximum contains
not_contains_above [] h s e lt = refl
not_contains_above (x ∷ xs) h s e lt = elim (Option-cases (maximum xs)) [
  | inl empty ↦ ground (arith, empty, maximum-none xs empty)
  | inr (m, found) ↦ ground (arith, not_contains_above xs m s found)
]

times_pow : (b p : ℕ) → b ≤ 1 → 0 < p → not (b * p == 0) ≡ (b == 1)
times_pow zero p h hp = ground arith
times_pow (suc zero) p h hp = ground arith
times_pow (suc (suc b)) p h hp = absurd (omega arith)

bit_is_set_lem : (words : List ℕ) (i : ℕ) → bit_is_set words i ≡ (window_bit words i == 1)
unfolding bit_is_set
bit_is_set_lem words i = rw (bit_and-pow (i % 64) (get_or words (i / 64) 0)) (
    times_pow (window_bit words i) (2 ^ (i % 64)) (bit_le (i % 64) (get_or words (i / 64) 0))
      (pow_pos (i % 64)))

-- Setting bit `j`.
window_bit-set :
    (words : List ℕ) (i j : ℕ)
    → length words ≡ 16
    → j < 1024
    → window_bit (or_at words (j / 64) (2 ^ (j % 64))) i
      ≡ (if i == j then 1 else window_bit words i)
window_bit-set words i j hl hj = elim (Bool-cases (i / 64 == j / 64)) [
  | inl here ↦
      let e : i / 64 ≡ j / 64 = ground arith in
      rw e (
        rw (word_bit-or_at_self words (j / 64) (2 ^ (j % 64)) (i % 64) (omega arith)) (
          ground (
            arith,
            bit-pow_self (i % 64),
            ap (λ (q : ℕ). bit (i % 64) (2 ^ q)),
            bit-pow_ne (i % 64) (j % 64),
            bit_le (i % 64) (get_or words (j / 64) 0),
          )))
  | inr there ↦
      rw (word_bit-or_at_ne words (j / 64) (i / 64) (2 ^ (j % 64)) (i % 64) (ground arith))
        (ground arith)
]

precheck_from-admits :
    (r : ReplayWindow) (log : List ℕ) (s : ℕ)
    → Tracks r log
    → (m : Option ℕ) → maximum log ≡ m
    → precheck_from m r.words s ≡ ensure (admits_from m log s)
unfolding precheck_from admits_from
precheck_from-admits r log s t none e = refl
precheck_from-admits r log s t (some h) e =
    ground (arith, bit_is_set_lem r.words (h - s), t.bits h (h - s))

-- The window refuses exactly what the specification refuses.
pub precheck-admits :
    (r : ReplayWindow) (log : List ℕ) (s : ℕ) → Tracks r log → precheck r s ≡ ensure (admits log s)
unfolding precheck admits
precheck-admits r log s t = rw t.top (precheck_from-admits r log s t (maximum log) refl)

contains_cons : (x y : ℕ) (ys : List ℕ) → contains x (y ∷ ys) ≡ (y == x || contains x ys)
unfolding contains
contains_cons x y ys = refl

maximum_first : (s : ℕ) (log : List ℕ) → maximum log ≡ none → maximum (s ∷ log) ≡ some s
unfolding maximum
maximum_first s log e = rw e

maximum_next : (s h : ℕ) (log : List ℕ) → maximum log ≡ some h → maximum (s ∷ log) ≡ some (max s h)
unfolding maximum
maximum_next s h log e = rw e

pow-IsU64 : (k : ℕ) → k < 64 → IsU64 (2 ^ k)
pow-IsU64 k h = omega (arith, pow-le-pow_right {n = 2} (omega arith) {i = k} {j = 63} (omega arith))

bit_of :
    {r : ReplayWindow} {log : List ℕ} (t : Tracks r log) (h i k : ℕ)
    → maximum log ≡ some h
    → i < 1024
    → i ≤ h
    → k ≡ h - i
    → window_bit r.words i ≡ flag (contains k log)
bit_of t h i k e hi le p = rw p (t.bits h i e hi le)

bit_clear : (i : ℕ) → window_bit (replicate 16 0) i ≡ 0
bit_clear i = rw (get_or-replicate {A = ℕ} 16 (i / 64) 0) (bit-zero (i % 64))

first_bit :
    (s i : ℕ) → i ≤ s → window_bit (or_at (replicate 16 0) 0 1) i ≡ flag (contains (s - i) (s ∷ []))
unfolding contains
first_bit s i le =
    ground (arith, window_bit-set (replicate 16 0) i 0 refl (omega arith), bit_clear i)

-- The first number.
first-Tracks :
    (r : ReplayWindow) (log : List ℕ) (s : ℕ)
    → Tracks r log
    → maximum log ≡ none
    → Tracks (record { highest = some s; words = set r.words 0 1 }) (s ∷ log)
unfolding or_at
first-Tracks r log s t e =
    rw (t.clear e, maximum-none log e)
      (record {
        sized = refl;
        word_sized = omega arith;
        top = sym (maximum_first s [] (unfold maximum in refl));
        bits = λ h i p hi le.
            let top : h ≡ s = cc (maximum_first s [] (unfold maximum in refl)) in
            rw top (first_bit s i (rw top at le));
        clear = λ p. absurd (cc (maximum_first s [] (unfold maximum in refl)));
      })

ahead_bit :
    (r : ReplayWindow) (log : List ℕ) (s h i : ℕ)
    → Tracks r log
    → maximum log ≡ some h
    → h < s
    → i < 1024
    → i ≤ s
    → window_bit (or_at (shift (s - h) r.words) 0 1) i ≡ flag (contains (s - i) (s ∷ log))
ahead_bit r log s h i t e lt hi le = ground (
  arith,
  window_bit-set (shift (s - h) r.words) i 0 (length-shift (s - h) r.words) (omega arith),
  window_bit-shift (s - h) r.words i t.word_sized,
  not_contains_above log h (s - i) e,
  bit_of t h (i - (s - h)) (s - i) e,
  contains_cons (s - i) s log,
)

-- A number past the highest.
ahead-Tracks :
    (r : ReplayWindow) (log : List ℕ) (s h : ℕ)
    → Tracks r log
    → maximum log ≡ some h
    → h < s
    → Tracks (record { highest = some s; words = or_at (shift (s - h) r.words) 0 1 }) (s ∷ log)
ahead-Tracks r log s h t e lt =
    let top : maximum (s ∷ log) ≡ some s = ground (arith, maximum_next s h log e) in
    record {
      sized = length-or_at (shift (s - h) r.words) 0 1 ∙ length-shift (s - h) r.words;
      word_sized = or_at-IsU64 _ 0 1 (shift-IsU64 (s - h) r.words t.word_sized) (omega arith);
      top = sym top;
      bits = λ h' i p hi le.
          let same : h' ≡ s = cc in rw same (ahead_bit r log s h i t e lt hi (rw same at le));
      clear = λ p. absurd (cc);
    }

behind_bit :
    (r : ReplayWindow) (log : List ℕ) (s h i : ℕ)
    → Tracks r log
    → maximum log ≡ some h
    → s ≤ h
    → h - s < 1024
    → i < 1024
    → i ≤ h
    → window_bit (or_at r.words ((h - s) / 64) (2 ^ ((h - s) % 64))) i
      ≡ flag (contains (h - i) (s ∷ log))
behind_bit r log s h i t e le near hi hle =
    ground
      (arith, window_bit-set r.words i (h - s) t.sized, t.bits h i e, contains_cons (h - i) s log)

-- A number inside the window.
behind-Tracks :
    (r : ReplayWindow) (log : List ℕ) (s h : ℕ)
    → Tracks r log
    → maximum log ≡ some h
    → s ≤ h
    → h - s < 1024
    → Tracks
        (record { highest = some h; words = or_at r.words ((h - s) / 64) (2 ^ ((h - s) % 64)) })
        (s ∷ log)
behind-Tracks r log s h t e le near =
    let top : maximum (s ∷ log) ≡ some h = ground (arith, maximum_next s h log e) in
    record {
      sized = length-or_at r.words _ _ ∙ t.sized;
      word_sized = or_at-IsU64 r.words _ _ t.word_sized (pow-IsU64 _ (omega arith));
      top = sym top;
      bits = λ h' i p hi hle.
          let same : h' ≡ h = cc in
          rw same (behind_bit r log s h i t e le near hi (rw same at hle));
      clear = λ p. absurd (cc);
    }

record_from-Tracks :
    (r : ReplayWindow) (log : List ℕ) (s : ℕ)
    → Tracks r log
    → (m : Option ℕ) → maximum log ≡ m
    → admits_from m log s ≡ true
    → Tracks (record_from m r.words s) (s ∷ log)
unfolding record_from admits_from
record_from-Tracks r log s t none e ok = first-Tracks r log s t e
record_from-Tracks r log s t (some h) e ok = elim (Bool-cases (ltb h s)) [
  | inl above ↦ rw above (ahead-Tracks r log s h t e (ltb→lt h s above))
  | inr below ↦ rw below (behind-Tracks r log s h t e (ground arith) (ground arith))
]

-- On every sequence number the window answers as the specification does: it refuses what the
-- specification does not admit, and otherwise stands for the log with the number added.
pub commit_refines :
    (r : ReplayWindow) (log : List ℕ) (s : ℕ)
    → Tracks r log
    → (commit r s ≡ none) × (admits log s ≡ false)
      ⊎ (r' : ReplayWindow) × (commit r s ≡ some r') × (admits log s ≡ true) × Tracks r' (s ∷ log)
unfolding commit admits
commit_refines r log s t = elim (Bool-cases (admits log s)) [
  | inl good ↦ inr (
    record_from (maximum log) r.words s,
    rw (precheck-admits r log s t, good, t.top),
    good,
    record_from-Tracks r log s t (maximum log) refl good,
  )
  | inr bad ↦ inl (rw (precheck-admits r log s t, bad), bad)
]

pub new-Tracks : Tracks new []
unfolding new maximum
new-Tracks = record {
  sized = refl;
  word_sized = omega arith;
  top = refl;
  bits = λ h i p. absurd (cc);
  clear = λ p. refl;
}

admits_fresh_from :
    (log : List ℕ) (s : ℕ) (m : Option ℕ)
    → maximum log ≡ m
    → admits_from m log s ≡ true
    → contains s log ≡ false
unfolding admits_from
admits_fresh_from log s none e ok = rw (maximum-none log e) (unfold contains in refl)
admits_fresh_from log s (some h) e ok = ground (arith, not_contains_above log h s e)

-- The specification admits no number that it has logged.
pub admits_fresh : (log : List ℕ) (s : ℕ) → admits log s ≡ true → contains s log ≡ false
unfolding admits
admits_fresh log s ok = admits_fresh_from log s (maximum log) refl ok

-- What passed `precheck` is committed.
pub commit-precheck :
    (r : ReplayWindow) (s : ℕ)
    → precheck r s ≡ some tt
    → (r' : ReplayWindow) × (commit r s ≡ some r')
unfolding commit
commit-precheck r s p = (record_from r.highest r.words s, rw p)
