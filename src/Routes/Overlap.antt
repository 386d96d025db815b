-- ===== src/Routes/Overlap.antt =====
-- `networks_overlap` of crates/core/src/routes.rs.
use xs_nexus.Base.{
  ℕ, zero, suc, ◌+◌, ◌-◌, ◌*◌, ◌/◌, ◌^◌, ◌≤◌, ◌≡◌, ◌↔◌, ◌⊎◌, inl, inr, refl, sym, ap, ◌∙◌, Bool,
  true, false, ◌||◌, arith,
}
use native.Mathlib.Nat.{div-div-eq-div-mul, pow-suc}
use xs_nexus.Routes.{Networks, IsNetworks, networks_overlap}

or_cases : (a b : Bool) → (a || b) ≡ true → (a ≡ true) ⊎ (b ≡ true)
or_cases true b h = inl refl
or_cases false b h = inr h

or_left : (a b : Bool) → a ≡ true → (a || b) ≡ true
or_left true b h = refl
or_left false b h = absurd (cc)

or_right : (a b : Bool) → b ≡ true → (a || b) ≡ true
or_right true b h = refl
or_right false b h = h

mul_two : (a b : ℕ) → a * (b * 2) ≡ a * b * 2
mul_two a b = grind arith

pow-add : (i k : ℕ) → 2 ^ (i + k) ≡ 2 ^ i * 2 ^ k
pow-add i zero = let e : i + 0 ≡ i = omega arith in ap (λ (t : ℕ). 2 ^ t) e ∙ omega arith
pow-add i (suc k) =
    let e : i + suc k ≡ suc (i + k) = omega arith in
    ap (λ (t : ℕ). 2 ^ t) e
    ∙ omega (
      arith,
      pow-suc 2 (i + k),
      ap (λ (t : ℕ). 2 ^ i * t) (pow-suc 2 k),
      pow-add i k,
      mul_two (2 ^ i) (2 ^ k),
    )

-- Numbers with the same first bits have the same fewer bits.
coarser : (a b i j : ℕ) → i ≤ j → a / 2 ^ i ≡ b / 2 ^ i → a / 2 ^ j ≡ b / 2 ^ j
coarser a b i j le h =
    let split : 2 ^ j ≡ 2 ^ i * 2 ^ (j - i) =
      let e : j ≡ i + (j - i) = omega arith in ap (λ (t : ℕ). 2 ^ t) e ∙ pow-add i (j - i) in
    ap (λ (t : ℕ). a / t) split
    ∙ (sym (div-div-eq-div-mul a (2 ^ i) (2 ^ (j - i)))
        ∙ (ap (λ (t : ℕ). t / 2 ^ (j - i)) h
            ∙ (div-div-eq-div-mul b (2 ^ i) (2 ^ (j - i)) ∙ ap (λ (t : ℕ). b / t) (sym split))))

module _ (n : Networks) (laws : IsNetworks n) where
  pub contains-network : (p : n.Ipv4Net) → n.contains p (n.network p) ≡ true
  contains-network p = (laws.contains_iff p (n.network p)).1 refl

  -- Two networks overlap exactly when some address is in both.
  pub networks_overlap_iff :
      (left right : n.Ipv4Net)
      → (networks_overlap n left right ≡ true)
        ↔ ((address : ℕ) × (n.contains left address ≡ true) × (n.contains right address ≡ true))
  unfolding networks_overlap
  networks_overlap_iff left right = (
    λ h. elim (or_cases (n.contains left (n.network right)) _ h) [
      | inl inside ↦ (n.network right, inside, contains-network right)
      | inr inside ↦ (n.network left, contains-network left, inside)
    ],
    λ (address, in_left, in_right).
        let in_left = (laws.contains_iff left address).0 in_left in
        let in_right = (laws.contains_iff right address).0 in_right in
        let i = 32 - n.prefix_len left in
        let j = 32 - n.prefix_len right in
        let wider : (i ≤ j) ⊎ (j ≤ i) = omega arith in
        elim wider [
          | inl le ↦ or_right (n.contains left (n.network right)) _ (
              (laws.contains_iff right (n.network left)).1
                (sym (coarser address (n.network left) i j le in_left) ∙ in_right))
          | inr le ↦ or_left (n.contains left (n.network right)) _ (
              (laws.contains_iff left (n.network right)).1
                (sym (coarser address (n.network right) j i le in_right) ∙ in_left))
        ],
  )
