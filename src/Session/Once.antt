-- ===== src/Session/Once.antt =====
-- Across epoch changes a `DataReceiver` of crates/protocol/src/data.rs opens no packet number twice.
use xs_nexus.Base.{
  ℕ, suc, ◌<◌, ◌≤◌, ◌≡◌, ◌≢◌, inl, inr, refl, sym, ◌∙◌, Bool, true, false, Option, none, some, List,
  [], ◌∷◌, ◌==◌, ==_iff, if◌then◌else◌, ensure-passed, bind-passed, some-eq, arith, Bool-cases,
}
use mathlib.Core.Path.{subst}
use xs_nexus.Replay
use xs_nexus.Replay.Window.{contains, Tracks, commit_refines, admits_fresh, new-Tracks}
use xs_nexus.Session.{
  Crypto, EpochCipher, DataReceiver, OpenedPacket, Slot, current_slot, previous_slot, select,
  select_previous, store, open_with_routed_addresses, install_next_epoch, retire_previous_epoch,
  derive_epoch, is_next_epoch, new_receiver,
}
use xs_nexus.Session.Laws.{open-Opened}

-- Everything that is done to a receiver.
pub data Action : Type 0 where
  receive : List ℕ → Bool → Action
  install : ℕ → Action
  retire : Action

-- The sequence numbers that were opened in one epoch, newest first.
unfoldable pub in_epoch : ℕ → List (ℕ × ℕ) → List ℕ
in_epoch epoch [] = []
in_epoch epoch ((e, s) ∷ log) =
    let rest = in_epoch epoch log in if e == epoch then s ∷ rest else rest

-- No epoch of the log is past the given one.
abbrev pub UpTo : ℕ → List (ℕ × ℕ) → Type 0
UpTo epoch [] = Unit {0}
UpTo epoch ((e, s) ∷ log) = (e ≤ epoch) × UpTo epoch log

abbrev PreviousTracks : Option EpochCipher → ℕ → List (ℕ × ℕ) → Type 0
PreviousTracks none epoch log = Unit {0}
PreviousTracks (some p) epoch log = (p.epoch < epoch) × Tracks p.replay (in_epoch p.epoch log)

-- The receiver's windows stand for the log of what was opened.
pub record Logged (r : DataReceiver) (log : List (ℕ × ℕ)) : Type 0 where
  pub now : Tracks r.current.replay (in_epoch r.current.epoch log)
  pub before : PreviousTracks r.previous r.current.epoch log
  pub bounded : UpTo r.current.epoch log

in_epoch_self : (e s : ℕ) (log : List (ℕ × ℕ)) → in_epoch e ((e, s) ∷ log) ≡ s ∷ in_epoch e log
unfolding in_epoch
in_epoch_self e s log = ground arith

in_epoch_other :
    (e f s : ℕ) (log : List (ℕ × ℕ)) → f ≢ e → in_epoch e ((f, s) ∷ log) ≡ in_epoch e log
unfolding in_epoch
in_epoch_other e f s log h = ground arith

in_epoch_past : (e : ℕ) (log : List (ℕ × ℕ)) → UpTo e log → in_epoch (suc e) log ≡ []
unfolding in_epoch
in_epoch_past e [] h = refl
in_epoch_past e ((f, s) ∷ log) h = ground (arith, in_epoch_past e log)

UpTo-mono : (e f : ℕ) (log : List (ℕ × ℕ)) → e ≤ f → UpTo e log → UpTo f log
UpTo-mono e f [] le h = tt
UpTo-mono e f ((g, s) ∷ log) le h = (omega (arith, h.0), UpTo-mono e f log le h.1)

-- A committed number was new, and is logged.
commit-Tracks :
    (w w' : Replay.ReplayWindow) (log : List ℕ) (s : ℕ)
    → Tracks w log
    → Replay.commit w s ≡ some w'
    → (contains s log ≡ false) × Tracks w' (s ∷ log)
commit-Tracks w w' log s t p = elim (commit_refines w log s t) [
  | inl (e, _) ↦ absurd (cc)
  | inr (u, e, good, t') ↦
      let same : u ≡ w' = some-eq (sym e ∙ p) in (admits_fresh log s good, rw same at t')
]

-- Where `select` finds a state.
data Chosen (r : DataReceiver) (epoch : ℕ) : Slot → EpochCipher → Type 0 where
  in_current : r.current.epoch ≡ epoch → Chosen r epoch current_slot r.current
  in_previous :
      (p : EpochCipher)
      → r.previous ≡ some p
      → p.epoch ≡ epoch
      → r.current.epoch ≢ epoch
      → Chosen r epoch previous_slot p

pair-eq :
    {slot slot' : Slot} {state state' : EpochCipher} (P : Slot → EpochCipher → Type 0)
    → ◌≡◌ {A = Option (Slot × EpochCipher)} (some (slot, state)) (some (slot', state'))
    → P slot state
    → P slot' state'
pair-eq P e x = subst (λ (q : Slot × EpochCipher). P q.0 q.1) (some-eq e) x

select_previous-Chosen :
    (r : DataReceiver) (epoch : ℕ) (slot : Slot) (state : EpochCipher)
    → r.current.epoch ≢ epoch
    → (o : Option EpochCipher) → r.previous ≡ o
    → select_previous o epoch ≡ some (slot, state)
    → Chosen r epoch slot state
unfolding select_previous
select_previous-Chosen r epoch slot state ne none e h = absurd (cc)
select_previous-Chosen r epoch slot state ne (some p) e h = elim (Bool-cases (p.epoch == epoch)) [
  | inl same ↦ pair-eq (Chosen r epoch) (rw same at h) (in_previous p e ((==_iff _ _).0 same) ne)
  | inr other ↦ absurd (let q = rw other at h in cc)
]

select-Chosen :
    (r : DataReceiver) (epoch : ℕ) (slot : Slot) (state : EpochCipher)
    → select r epoch ≡ some (slot, state)
    → Chosen r epoch slot state
unfolding select
select-Chosen r epoch slot state h = elim (Bool-cases (epoch == r.current.epoch)) [
  | inl here ↦ pair-eq (Chosen r epoch) (rw here at h) (in_current (sym ((==_iff _ _).0 here)))
  | inr there ↦
      select_previous-Chosen r epoch slot state (ground arith) r.previous refl (rw there at h)
]

previous_keeps :
    (o : Option EpochCipher) (e s : ℕ) (log : List (ℕ × ℕ))
    → PreviousTracks o e log
    → PreviousTracks o e ((e, s) ∷ log)
previous_keeps none e s log h = tt
previous_keeps (some p) e s log h =
    (h.0, rw (in_epoch_other p.epoch e s log (omega (arith, h.0))) h.1)

-- Opening in a slot logs the pair, which was not there.
record-Logged :
    (r : DataReceiver) (log : List (ℕ × ℕ)) (epoch s : ℕ) {slot : Slot} {state : EpochCipher}
    (w : Replay.ReplayWindow)
    → Logged r log
    → Chosen r epoch slot state
    → Replay.commit state.replay s ≡ some w
    → (contains s (in_epoch epoch log) ≡ false)
      × Logged (store r slot (record state { replay = w })) ((epoch, s) ∷ log)
record-Logged r log epoch s w l (in_current e) taken =
    let now = r.current.epoch in
    let (fresh, tracks) = commit-Tracks r.current.replay w (in_epoch now log) s l.now taken in
    rw (← e) (
      fresh,
      record {
        now = rw (in_epoch_self now s log) tracks;
        before = previous_keeps r.previous now s log l.before;
        bounded = (omega arith, l.bounded);
      },
    )
record-Logged r log epoch s w l (in_previous p at e ne) taken =
    let (older, tracks) = rw at at l.before in
    let (fresh, tracks') = commit-Tracks p.replay w (in_epoch p.epoch log) s tracks taken in
    rw (← e) (
      fresh,
      record {
        now = rw (in_epoch_other r.current.epoch p.epoch s log (omega arith)) l.now;
        before = (older, rw (in_epoch_self p.epoch s log) tracks');
        bounded = (omega arith, l.bounded);
      },
    )

install-Logged :
    (r r' : DataReceiver) (log : List (ℕ × ℕ)) (next : EpochCipher)
    → Logged r log
    → next.epoch ≡ suc r.current.epoch
    → next.replay ≡ Replay.new
    → r' ≡ record r { current = next; previous = some r.current }
    → Logged r' log
install-Logged r r' log next l e w same = rw same (record {
  now = rw (w, e, in_epoch_past r.current.epoch log l.bounded) new-Tracks;
  before = (rw e (omega arith), l.now);
  bounded = rw e (UpTo-mono r.current.epoch (suc r.current.epoch) log (omega arith) l.bounded);
})

-- A failed method leaves the receiver as it was; an opened packet is reported.
abbrev pub settle_open :
    DataReceiver → Option (DataReceiver × OpenedPacket) → DataReceiver × Option (ℕ × ℕ)
settle_open r none = (r, none)
settle_open r (some (r', packet)) = (r', some (packet.key_epoch, packet.sequence))

abbrev pub settle_install : DataReceiver → Option DataReceiver → DataReceiver × Option (ℕ × ℕ)
settle_install r none = (r, none)
settle_install r (some r') = (r', none)

abbrev pub consed : Option (ℕ × ℕ) → List (ℕ × ℕ) → List (ℕ × ℕ)
consed none log = log
consed (some pair) log = pair ∷ log

-- No pair stands in the list twice.
abbrev pub NoPairTwice : List (ℕ × ℕ) → Type 0
NoPairTwice [] = Unit {0}
NoPairTwice ((e, s) ∷ log) = (contains s (in_epoch e log) ≡ false) × NoPairTwice log

next_of : (epoch next : ℕ) → is_next_epoch epoch next ≡ true → next ≡ suc epoch
unfolding is_next_epoch
next_of epoch next h = ground arith

installed :
    (r : DataReceiver) (log : List (ℕ × ℕ))
    → Logged r log
    → NoPairTwice log
    → (o : Option DataReceiver) → Logged (settle_install r o).0 log
    → Logged (settle_install r o).0 (consed (settle_install r o).1 log)
      × NoPairTwice (consed (settle_install r o).1 log)
installed r log l n none h = (l, n)
installed r log l n (some r') h = (h, n)

module _ (c : Crypto) where
  unfoldable pub act : DataReceiver → Action → DataReceiver × Option (ℕ × ℕ)
  act r (receive encoded allow_routed) =
      settle_open r (open_with_routed_addresses c r encoded allow_routed)
  act r (install next_epoch) = settle_install r (install_next_epoch c r next_epoch)
  act r retire = (retire_previous_epoch r, none)

  -- The (epoch, sequence) pairs of the packets that are opened, newest first, behind those of `log`.
  unfoldable pub opened_pairs : DataReceiver → List (ℕ × ℕ) → List Action → List (ℕ × ℕ)
  unfolding act
  opened_pairs r log [] = log
  opened_pairs r log (a ∷ actions) = opened_pairs (act r a).0 (consed (act r a).1 log) actions

  settle_open-Logged :
      (r : DataReceiver) (log : List (ℕ × ℕ)) (encoded : List ℕ) (allow_routed : Bool)
      → Logged r log
      → NoPairTwice log
      → (o : Option (DataReceiver × OpenedPacket))
      → open_with_routed_addresses c r encoded allow_routed ≡ o
      → Logged (settle_open r o).0 (consed (settle_open r o).1 log)
        × NoPairTwice (consed (settle_open r o).1 log)
  settle_open-Logged r log encoded allow_routed l n none p = (l, n)
  settle_open-Logged r log encoded allow_routed l n (some (r', packet)) p =
      let z = open-Opened c r encoded allow_routed r' packet p in
      let chosen = select-Chosen r z.header.key_epoch z.slot z.state z.chosen in
      let (fresh, l') =
        record-Logged r log z.header.key_epoch z.header.sequence z.window l chosen z.taken in
      rw (z.after, z.result) (l', (fresh, n))

  derived_fields :
      (secret epoch : ℕ) (cipher : EpochCipher)
      → derive_epoch c secret epoch ≡ some cipher
      → (cipher.epoch ≡ epoch) × (cipher.replay ≡ Replay.new)
  unfolding derive_epoch
  derived_fields secret epoch cipher p = ground arith

  settle_install-Logged :
      (r : DataReceiver) (log : List (ℕ × ℕ)) (next_epoch : ℕ)
      → Logged r log
      → (o : Option DataReceiver) → install_next_epoch c r next_epoch ≡ o
      → Logged (settle_install r o).0 log
  unfolding install_next_epoch
  settle_install-Logged r log next_epoch l none p = l
  settle_install-Logged r log next_epoch l (some r') p =
      let (next, p) = ensure-passed _ _ p in
      let (cipher, derived, p) = bind-passed _ _ p in
      let (epoch, replay) = derived_fields r.direction_secret next_epoch cipher derived in
      install-Logged r r' log cipher l (epoch ∙ next_of r.current.epoch next_epoch next) replay
        (sym (some-eq p))

  act-Logged :
      (r : DataReceiver) (log : List (ℕ × ℕ)) (a : Action)
      → Logged r log
      → NoPairTwice log
      → Logged (act r a).0 (consed (act r a).1 log) × NoPairTwice (consed (act r a).1 log)
  unfolding act
  act-Logged r log (receive encoded allow_routed) l n =
      settle_open-Logged r log encoded allow_routed l n
        (open_with_routed_addresses c r encoded allow_routed) refl
  act-Logged r log (install next_epoch) l n =
      installed r log l n (install_next_epoch c r next_epoch)
        (settle_install-Logged r log next_epoch l (install_next_epoch c r next_epoch) refl)
  act-Logged r log retire l n = (record { now = l.now; before = tt; bounded = l.bounded }, n)

  opened_pairs_from :
      (r : DataReceiver) (log : List (ℕ × ℕ)) (actions : List Action)
      → Logged r log
      → NoPairTwice log
      → NoPairTwice (opened_pairs r log actions)
  unfolding opened_pairs
  opened_pairs_from r log [] l n = n
  opened_pairs_from r log (a ∷ actions) l n =
      let (l', n') = act-Logged r log a l n in
      opened_pairs_from (act r a).0 (consed (act r a).1 log) actions l' n'

  new-Logged :
      (secret network source destination session source_ip destination_ip : ℕ) (r : DataReceiver)
      → new_receiver c secret network source destination session source_ip destination_ip ≡ some r
      → Logged r []
  unfolding new_receiver in_epoch
  new-Logged secret network source destination session source_ip destination_ip r made =
      let (current, derived, made) = bind-passed (derive_epoch c secret 0) _ made in
      let (_, replay) = derived_fields secret 0 current derived in
      rw (← some-eq made) (record { now = rw replay new-Tracks; before = tt; bounded = tt })

  -- From a new receiver on, through any series of packets (whatever their bytes), installed epochs
  -- and retired epochs, no two packets with the same epoch and sequence number are opened.
  pub opened_pairs-NoPairTwice :
      (secret network source destination session source_ip destination_ip : ℕ) (r : DataReceiver)
      (actions : List Action)
      → new_receiver c secret network source destination session source_ip destination_ip ≡ some r
      → NoPairTwice (opened_pairs r [] actions)
  opened_pairs-NoPairTwice secret network source destination session source_ip destination_ip r
        actions made =
      opened_pairs_from r [] actions
        (new-Logged secret network source destination session source_ip destination_ip r made) tt
