-- ===== src/Replay.antt =====
-- The sliding anti-replay window: `ReplayWindow` of crates/protocol/src/data.rs, which
-- apps/relay/src/server.rs repeats line for line. A `u64` is a number below 2 ^ 64, the array
-- `[u64; 16]` is a list of 16 of them, and `Err(..)` is `none`.
pub mod Shift
pub mod Window
pub mod Runs
mod Tests
use xs_nexus.Base.{
  ℕ, zero, suc, ◌+◌, ◌-◌, ◌*◌, ◌/◌, ◌%◌, ◌^◌, ◌<◌, ◌≡◌, bit_and, bit_or, Bool, true, false, not,
  ◌&&◌, Option, none, some, List, [], ◌∷◌, ltb, leb, ◌==◌, if◌then◌else◌, ◌>>=◌, ◌>>◌, ensure,
  get_or, set, length, replicate, All,
}

abbrev pub replay_window_bits : ℕ
replay_window_bits = 1024

abbrev pub replay_window_words : ℕ
replay_window_words = replay_window_bits / 64

abbrev pub max_sequence_advance : ℕ
max_sequence_advance = 2 ^ 20

pub record ReplayWindow : Type 0 where
  pub highest : Option ℕ
  pub words : List ℕ

unfoldable pub new : ReplayWindow
new = record { highest = none; words = replicate replay_window_words 0 }

-- `self.words[offset / 64] & (1_u64 << (offset % 64)) != 0`
unfoldable pub bit_is_set : List ℕ → ℕ → Bool
bit_is_set words offset = not (bit_and (get_or words (offset / 64) 0) (2 ^ (offset % 64)) == 0)

-- `words[i] |= mask`
unfoldable pub or_at : List ℕ → ℕ → ℕ → List ℕ
or_at words i mask = set words i (bit_or (get_or words i 0) mask)

-- The second half of the loop's body: the bits that cross into the next word.
unfoldable pub carry_into : ℕ → ℕ → ℕ → List ℕ → List ℕ
unfolding or_at
carry_into target bit_shift word words =
    if not (bit_shift == 0) && ltb (target + 1) replay_window_words
    then or_at words (target + 1) (word / 2 ^ (64 - bit_shift))
    else words

-- `for (source, word) in old.into_iter().enumerate()`, over what the loop has not reached.
unfoldable pub shift_loop : ℕ → ℕ → List ℕ → ℕ → List ℕ → List ℕ
unfolding carry_into or_at
shift_loop word_shift bit_shift [] source words = words
shift_loop word_shift bit_shift (word ∷ old) source words =
    let target = source + word_shift in
    let moved = or_at words target (word * 2 ^ bit_shift % 2 ^ 64) in
    let rest =
      shift_loop word_shift bit_shift old (source + 1) (carry_into target bit_shift word moved) in
    if leb replay_window_words target then words else rest

unfoldable pub shift : ℕ → List ℕ → List ℕ
unfolding shift_loop
shift distance old =
    let cleared = replicate replay_window_words 0 in
    if leb replay_window_bits distance
    then cleared
    else shift_loop (distance / 64) (distance % 64) old 0 cleared

-- `if let Some(highest) = self.highest`, as clauses over the field.
unfoldable pub precheck_from : Option ℕ → List ℕ → ℕ → Option (Unit {0})
unfolding bit_is_set
precheck_from none words sequence = ensure (leb sequence max_sequence_advance)
precheck_from (some highest) words sequence =
    if ltb highest sequence
    then ensure (leb (sequence - highest) max_sequence_advance)
    else if leb 1024 (highest - sequence)
    then none
    else ensure (not (bit_is_set words (highest - sequence)))

unfoldable pub precheck : ReplayWindow → ℕ → Option (Unit {0})
unfolding precheck_from
precheck window sequence = precheck_from window.highest window.words sequence

unfoldable pub record_from : Option ℕ → List ℕ → ℕ → ReplayWindow
unfolding shift or_at
record_from none words sequence = record { highest = some sequence; words = set words 0 1 }
record_from (some highest) words sequence =
    if ltb highest sequence
    then record { highest = some sequence; words = or_at (shift (sequence - highest) words) 0 1 }
    else record {
      highest = some highest;
      words = or_at words ((highest - sequence) / 64) (2 ^ ((highest - sequence) % 64));
    }

unfoldable pub commit : ReplayWindow → ℕ → Option ReplayWindow
unfolding precheck record_from
commit window sequence = do
  precheck window sequence
  some (record_from window.highest window.words sequence)
