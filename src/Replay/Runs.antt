-- ===== src/Replay/Runs.antt =====
-- A receiver that commits every number it accepts, over any arrival order (the use that
-- crates/protocol/src/data.rs and apps/relay/src/server.rs make of the window).
use xs_nexus.Base.{ℕ, ◌≡◌, true, false, List, [], ◌∷◌, arith, some, none, inl, inr, refl}
use xs_nexus.Replay.{ReplayWindow, commit, new}
use xs_nexus.Replay.Window.{contains, admits_fresh, Tracks, commit_refines, new-Tracks}

-- The numbers accepted out of an arrival sequence, in order.
unfoldable pub accepted : ReplayWindow → List ℕ → List ℕ
accepted window [] = []
accepted window (s ∷ ss) = elim (commit window s) [
  | none ↦ accepted window ss
  | some next ↦ s ∷ accepted next ss
]

-- What is accepted is pairwise different.
abbrev pub Distinct : List ℕ → Type 0
Distinct [] = Unit
Distinct (x ∷ xs) = (contains x xs ≡ false) × Distinct xs

accepted_refused :
    (r : ReplayWindow) (s : ℕ) (ss : List ℕ)
    → commit r s ≡ none
    → accepted r (s ∷ ss) ≡ accepted r ss
unfolding accepted
accepted_refused r s ss e = rw (e, accepted)

accepted_taken :
    (r r' : ReplayWindow) (s : ℕ) (ss : List ℕ)
    → commit r s ≡ some r'
    → accepted r (s ∷ ss) ≡ s ∷ accepted r' ss
unfolding accepted
accepted_taken r r' s ss e = rw (e, accepted)

-- Nothing that is in the log is accepted later on.
accepted_not_logged :
    (r : ReplayWindow) (log ss : List ℕ) (x : ℕ)
    → Tracks r log
    → contains x log ≡ true
    → contains x (accepted r ss) ≡ false
unfolding contains
accepted_not_logged r log [] x t h = unfold accepted in refl
accepted_not_logged r log (s ∷ ss) x t h = elim (commit_refines r log s t) [
  | inl (e, _) ↦ rw (accepted_refused r s ss e) (accepted_not_logged r log ss x t h)
  | inr (r', e, good, t') ↦
      rw (accepted_taken r r' s ss e)
        (ground (arith, admits_fresh log s good, accepted_not_logged r' (s ∷ log) ss x t'))
]

accepted-Distinct_from :
    (r : ReplayWindow) (log ss : List ℕ) → Tracks r log → Distinct (accepted r ss)
accepted-Distinct_from r log [] t = unfold accepted in tt
accepted-Distinct_from r log (s ∷ ss) t = elim (commit_refines r log s t) [
  | inl (e, _) ↦ rw (accepted_refused r s ss e) (accepted-Distinct_from r log ss t)
  | inr (r', e, good, t') ↦ rw (accepted_taken r r' s ss e) (
    accepted_not_logged r' (s ∷ log) ss s t' (unfold contains in ground arith),
    accepted-Distinct_from r' (s ∷ log) ss t',
  )
]

-- Whatever numbers arrive, in whatever order and however often, a window that starts empty
-- accepts no number twice.
pub accepted-Distinct : (arrivals : List ℕ) → Distinct (accepted new arrivals)
accepted-Distinct arrivals = accepted-Distinct_from new [] arrivals new-Tracks
