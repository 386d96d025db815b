-- ===== src/Replay/Tests.antt =====
-- Runs of the window, and its theorems at concrete windows.
use xs_nexus.Base.{◌≡◌, refl, true, false, [], ◌∷◌, some, none, ◌⊎◌, replicate, arith}
use xs_nexus.Replay.{ReplayWindow, new, commit, shift}
use xs_nexus.Base.Bits.{bit}
use xs_nexus.Replay.Shift.{window_bit, window_bit-shift}
use xs_nexus.Replay.Window.{admits, Tracks, commit_refines, new-Tracks}
use xs_nexus.Replay.Runs.{accepted, accepted-Distinct, Distinct}

-- Out of order, repeated, too old and too far ahead.
accepted_run :
    accepted new (5 ∷ 3 ∷ 5 ∷ 70 ∷ 3 ∷ 4 ∷ 2000 ∷ 70 ∷ 976 ∷ 977 ∷ 2000000 ∷ [])
    ≡ 5 ∷ 3 ∷ 70 ∷ 4 ∷ 2000 ∷ 977 ∷ []
unfolding accepted commit new
accepted_run = refl

accepted-Distinct_example : Distinct (accepted new (5 ∷ 3 ∷ 5 ∷ []))
accepted-Distinct_example = accepted-Distinct (5 ∷ 3 ∷ 5 ∷ [])

commit_refines_example :
    (commit new 7 ≡ none) × (admits [] 7 ≡ false)
    ⊎ (r' : ReplayWindow) × (commit new 7 ≡ some r') × (admits [] 7 ≡ true) × Tracks r' (7 ∷ [])
commit_refines_example = commit_refines new [] 7 new-Tracks

shifted_bit : window_bit (shift 70 (6 ∷ replicate 15 0)) 72 ≡ 1
unfolding bit
shifted_bit = window_bit-shift 70 (6 ∷ replicate 15 0) 72 (omega arith) (omega arith)
