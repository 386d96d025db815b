-- ===== src/Base/Maps.antt =====
-- `HashMap` as an association list over keys with a Boolean equality.
use Prim.Native.Nat.{ℕ, suc, ◌≤◌, ◌<◌}
use mathlib.Core.Path.{◌≡◌, refl, sym, ◌∙◌, subst}
use mathlib.Core.Logic.{◌≢◌, ◌↔◌, ◌⊎◌, inl, inr}
use mathlib.Core.Bool.{Bool, true}
use mathlib.Core.List.{List, [], ◌∷◌}
use mathlib.Core.Option.{Option, none, some}
use native.Mathlib.Omega.{arith}
use xs_nexus.Base.Tests.{◌==◌ as nat_eq, ==_iff, Bool-cases, some-eq, if◌then◌else◌}
use xs_nexus.Base.Lists.{length}

pub record Eq {ℓ} (A : Type ℓ) : Type ℓ where
  pub matches : A → A → Bool
  pub decides : (a b : A) → (matches a b ≡ true) ↔ (a ≡ b)

instance abbrev pub nat_key : Eq ℕ
nat_key = record { matches = nat_eq; decides = ==_iff }

-- Two keys are one or they are not.
pub same_key {ℓ} : {K : Type ℓ} ⦃e : Eq K⦄ (k j : K) → (k ≡ j) ⊎ (k ≢ j)
same_key ⦃e⦄ k j = elim (Bool-cases (e.matches k j)) [
  | inl h ↦ inl ((e.decides k j).0 h)
  | inr h ↦ inr (λ q. ground (arith, e.decides k j))
]

module _ {ℓ κ} {K : Type ℓ} {V : Type κ} ⦃e : Eq K⦄ where
  unfoldable pub lookup : K → List (K × V) → Option V
  lookup k [] = none
  lookup k ((j, v) ∷ m) = if e.matches j k then some v else lookup k m

  unfoldable pub insert : K → V → List (K × V) → List (K × V)
  insert k v [] = (k, v) ∷ []
  insert k v ((j, w) ∷ m) = if e.matches j k then (k, v) ∷ m else (j, w) ∷ insert k v m

  pub remove : K → List (K × V) → List (K × V)
  remove k [] = []
  remove k ((j, w) ∷ m) = let rest = remove k m in if e.matches j k then rest else (j, w) ∷ rest

  pub lookup-insert :
      (k j : K) (v : V) (m : List (K × V))
      → lookup j (insert k v m) ≡ (if e.matches k j then some v else lookup j m)
  unfolding lookup insert
  lookup-insert k j v [] = refl
  lookup-insert k j v ((i, w) ∷ m) =
      ground (arith, e.decides k j, e.decides i k, e.decides i j, lookup-insert k j v m)

  pub lookup-remove :
      (k j : K) (m : List (K × V))
      → lookup j (remove k m) ≡ (if e.matches k j then none else lookup j m)
  unfolding lookup remove
  lookup-remove k j [] = ground arith
  lookup-remove k j ((i, w) ∷ m) =
      ground (arith, e.decides k j, e.decides i k, e.decides i j, lookup-remove k j m)

  pub lookup-insert_self : (k : K) (v : V) (m : List (K × V)) → lookup k (insert k v m) ≡ some v
  lookup-insert_self k v m = rw (lookup-insert k k v m, (e.decides k k).1 refl) refl

  pub lookup-insert_ne :
      (k j : K) (v : V) (m : List (K × V)) → k ≢ j → lookup j (insert k v m) ≡ lookup j m
  lookup-insert_ne k j v m ne = ground (arith, lookup-insert k j v m, e.decides k j)

  pub lookup-remove_self : (k : K) (m : List (K × V)) → lookup k (remove k m) ≡ none
  lookup-remove_self k m = rw (lookup-remove k k m, (e.decides k k).1 refl) refl

  pub lookup-remove_ne : (k j : K) (m : List (K × V)) → k ≢ j → lookup j (remove k m) ≡ lookup j m
  lookup-remove_ne k j m ne = ground (arith, lookup-remove k j m, e.decides k j)

  pub length-insert : (k : K) (v : V) (m : List (K × V)) → length (insert k v m) ≤ suc (length m)
  unfolding insert
  length-insert k v [] = omega arith
  length-insert k v ((j, w) ∷ m) = ground (arith, length-insert k v m)

  pub length-insert_known :
      (k : K) (v w : V) (m : List (K × V)) → lookup k m ≡ some w → length (insert k v m) ≡ length m
  unfolding insert lookup
  length-insert_known k v w [] h = absurd (cc)
  length-insert_known k v w ((j, u) ∷ m) h = ground (arith, length-insert_known k v w m)

  pub length-remove : (k : K) (m : List (K × V)) → length (remove k m) ≤ length m
  unfolding remove
  length-remove k [] = omega arith
  length-remove k ((j, w) ∷ m) = ground (arith, length-remove k m)

  pub length-remove_known :
      (k : K) (w : V) (m : List (K × V)) → lookup k m ≡ some w → length (remove k m) < length m
  unfolding remove lookup
  length-remove_known k w [] h = absurd (cc)
  length-remove_known k w ((j, u) ∷ m) h =
      ground (arith, length-remove_known k w m, length-remove k m)

  -- No key has two entries.
  abbrev pub Unique : List (K × V) → Type (ℓ ⊔ κ)
  Unique [] = Unit {ℓ ⊔ κ}
  Unique ((k, v) ∷ m) = (lookup k m ≡ none) × Unique m

  pub insert-Unique : (k : K) (v : V) (m : List (K × V)) → Unique m → Unique (insert k v m)
  unfolding insert lookup
  insert-Unique k v [] h = (refl, tt)
  insert-Unique k v ((j, w) ∷ m) (h, u) = elim (Bool-cases (e.matches j k)) [
    | inl same ↦ rw same (subst (λ (x : K). lookup x m ≡ none) ((e.decides j k).0 same) h, u)
    | inr other ↦ rw other (
      lookup-insert_ne k j v m (λ q. let x = (e.decides j k).1 (sym q) in ground arith) ∙ h,
      insert-Unique k v m u,
    )
  ]

  pub remove-Unique : (k : K) (m : List (K × V)) → Unique m → Unique (remove k m)
  unfolding remove
  remove-Unique k [] h = tt
  remove-Unique k ((j, w) ∷ m) (h, u) = elim (Bool-cases (e.matches j k)) [
    | inl same ↦ rw same (remove-Unique k m u)
    | inr other ↦ rw other (
      lookup-remove_ne k j m (λ q. let x = (e.decides j k).1 (sym q) in ground arith) ∙ h,
      remove-Unique k m u,
    )
  ]

  -- Where an entry that is found stands.
  pub insert_cases :
      (k j : K) (v w : V) (m : List (K × V))
      → lookup j (insert k v m) ≡ some w
      → ((k ≡ j) × (v ≡ w)) ⊎ ((k ≢ j) × (lookup j m ≡ some w))
  insert_cases k j v w m h = elim (same_key k j) [
    | inl q ↦ inl (
      q,
      some-eq (
          sym (lookup-insert_self k v m)
          ∙ subst (λ (x : K). lookup x (insert k v m) ≡ some w) (sym q) h),
    )
    | inr ne ↦ inr (ne, sym (lookup-insert_ne k j v m ne) ∙ h)
  ]

  pub remove_cases :
      (k j : K) (w : V) (m : List (K × V))
      → lookup j (remove k m) ≡ some w
      → (k ≢ j) × (lookup j m ≡ some w)
  remove_cases k j w m h = elim (same_key k j) [
    | inl q ↦ absurd (
        let x : lookup j (remove k m) ≡ none =
          subst (λ (x : K). lookup x (remove k m) ≡ none) q (lookup-remove_self k m) in
        let y : none ≡ some w = sym x ∙ h in cc)
    | inr ne ↦ (ne, sym (lookup-remove_ne k j m ne) ∙ h)
  ]

  pub lookup-insert_at :
      (k j : K) (v : V) (m : List (K × V)) → k ≡ j → lookup j (insert k v m) ≡ some v
  lookup-insert_at k j v m q =
      subst (λ (x : K). lookup x (insert k v m) ≡ some v) q (lookup-insert_self k v m)

  -- Every entry of the second list is what the first map finds under its key.
  abbrev pub AreFound : List (K × V) → List (K × V) → Type κ
  AreFound m [] = Unit {κ}
  AreFound m ((k, v) ∷ entries) = (lookup k m ≡ some v) × AreFound m entries

  found_behind :
      (k : K) (v : V) (m entries : List (K × V))
      → lookup k m ≡ none
      → AreFound m entries
      → AreFound ((k, v) ∷ m) entries
  unfolding lookup
  found_behind k v m [] h f = tt
  found_behind k v m ((j, w) ∷ entries) h (f, fs) = elim (Bool-cases (e.matches k j)) [
    | inl same ↦ absurd (
        let x : lookup j m ≡ none =
          subst (λ (x : K). lookup x m ≡ none) ((e.decides k j).0 same) h in
        let y : none ≡ some w = sym x ∙ f in cc)
    | inr other ↦ (rw other f, found_behind k v m entries h fs)
  ]

  pub Unique-AreFound : (m : List (K × V)) → Unique m → AreFound m m
  unfolding lookup
  Unique-AreFound [] u = tt
  Unique-AreFound ((k, v) ∷ m) (h, u) =
      (rw ((e.decides k k).1 refl) refl, found_behind k v m m h (Unique-AreFound m u))

  pub lookup-empty : (k : K) → lookup k [] ≡ none
  unfolding lookup
  lookup-empty k = refl
