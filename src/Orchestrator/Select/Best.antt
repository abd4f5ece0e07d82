-- ===== src/Orchestrator/Select/Best.antt =====
-- The order of selectBestAlternative (internal/orchestrator/orchestrator.go) ranks the candidates.
use smart_retry_orchestrator.Float.{Float64, small, IsIeee}
use smart_retry_orchestrator.Common.{
  ℕ, ◌≡◌, ◌<◌, ◌*◌, ◌≤◌, Bool, not, false, ltb, true, arith, if◌then◌else◌, ◌==◌, ◌&&◌,
}
use native.Mathlib.Nat.{le_of_mul-le-mul_right, mul-le-mul_right}
use smart_retry_orchestrator.Orchestrator.Select.{Candidate, less}

-- A float64 that is a quotient of small numbers.
pub record IsSmall {F : Type 0} ⦃fl : Float64 F⦄ (x : F) : Type 0 where
  pub num : ℕ
  pub den : ℕ
  pub value : x ≡ fl.lit num den
  pub num_lt : num < small
  pub den_pos : 0 < den
  pub den_lt : den < small

cross_trans : (a b c d e f : ℕ) → 0 < d → c * b ≤ a * d → e * d ≤ c * f → e * b ≤ a * f
cross_trans a b c d e f h p q =
    le_of_mul-le-mul_right {k = d} (omega (arith, mul-le-mul_right f p, mul-le-mul_right b q)) h

-- Two keys compared one after the other, by what the comparisons answer: `xy` is x < y.
abbrev lexi : (xy yx tie : Bool) → Bool
lexi xy yx tie = if not (not xy && not yx) then xy else tie

lexi_trans :
    (xy yx yz zy xz zx t u v : Bool)
    → (xy ≡ false → yz ≡ false → xz ≡ false)
    → (zy ≡ false → yx ≡ false → zx ≡ false)
    → (yx ≡ false → xz ≡ false → yz ≡ false)
    → (zx ≡ false → xy ≡ false → zy ≡ false)
    → (xz ≡ false → zy ≡ false → xy ≡ false)
    → (yz ≡ false → zx ≡ false → yx ≡ false)
    → (t ≡ false → u ≡ false → v ≡ false)
    → lexi xy yx t ≡ false
    → lexi yz zy u ≡ false
    → lexi xz zx v ≡ false
lexi_trans xy yx yz zy xz zx t u v a b c d e f g h k = ground arith

module _ {F : Type 0} ⦃fl : Float64 F⦄ (ieee : IsIeee F) where
  open ieee use {lt-lit, eq-lit}

  lt-cross :
      (x y : F) (u : IsSmall x) (v : IsSmall y) → fl.lt x y ≡ ltb (u.num * v.den) (v.num * u.den)
  lt-cross x y u v =
      rw (u.value, v.value)
        (lt-lit u.num u.den v.num v.den u.num_lt u.den_pos u.den_lt v.num_lt v.den_pos v.den_lt)

  eq-cross :
      (x y : F) (u : IsSmall x) (v : IsSmall y) → fl.eq x y ≡ (u.num * v.den == v.num * u.den)
  eq-cross x y u v =
      rw (u.value, v.value)
        (eq-lit u.num u.den v.num v.den u.num_lt u.den_pos u.den_lt v.num_lt v.den_pos v.den_lt)

  -- Equality is that neither is less.
  pub eq_of_lt :
      (x y : F) → IsSmall x → IsSmall y → fl.eq x y ≡ (not (fl.lt x y) && not (fl.lt y x))
  eq_of_lt x y u v = rw (lt-cross x y u v, lt-cross y x v u, eq-cross x y u v) (ground arith)

  pub lt_asymm : (x y : F) → IsSmall x → IsSmall y → fl.lt x y ≡ true → fl.lt y x ≡ false
  lt_asymm x y u v = rw (lt-cross x y u v, lt-cross y x v u) (λ h. ground arith)

  pub not_lt_trans :
      (x y z : F)
      → IsSmall x
      → IsSmall y
      → IsSmall z
      → fl.lt x y ≡ false
      → fl.lt y z ≡ false
      → fl.lt x z ≡ false
  not_lt_trans x y z u v w =
      rw (lt-cross x y u v, lt-cross y z v w, lt-cross x z u w)
        (λ p q. ground (arith, cross_trans u.num u.den v.num v.den w.num w.den v.den_pos))

  -- What is known of a candidate.
  pub record IsRanked (c : Candidate F) : Type 0 where
    pub rate : IsSmall c.adaptive_rate
    pub cost : IsSmall c.cost
    pub failure : IsSmall c.failure_rate

  pub less_asymm :
      (c d : Candidate F) → IsRanked c → IsRanked d → less c d ≡ true → less d c ≡ false
  unfolding less
  less_asymm c d u v h = ground (
    arith,
    eq_of_lt c.adaptive_rate d.adaptive_rate u.rate v.rate,
    eq_of_lt d.adaptive_rate c.adaptive_rate v.rate u.rate,
    lt_asymm c.adaptive_rate d.adaptive_rate u.rate v.rate,
    eq_of_lt c.cost d.cost u.cost v.cost,
    eq_of_lt d.cost c.cost v.cost u.cost,
    lt_asymm c.cost d.cost u.cost v.cost,
    lt_asymm c.failure_rate d.failure_rate u.failure v.failure,
  )

  less-eq-lexi :
      (c d : Candidate F)
      → IsRanked c
      → IsRanked d
      → less c d
        ≡ lexi
            (fl.lt d.adaptive_rate c.adaptive_rate)
            (fl.lt c.adaptive_rate d.adaptive_rate)
            (lexi (fl.lt c.cost d.cost) (fl.lt d.cost c.cost) (fl.lt c.failure_rate d.failure_rate))
  unfolding less
  less-eq-lexi c d u v = ground (
    arith,
    eq_of_lt c.adaptive_rate d.adaptive_rate u.rate v.rate,
    eq_of_lt c.cost d.cost u.cost v.cost,
  )

  pub less_trans :
      (c d e : Candidate F)
      → IsRanked c
      → IsRanked d
      → IsRanked e
      → less c d ≡ false
      → less d e ≡ false
      → less c e ≡ false
  less_trans c d e u v w =
      let rate = λ (x y z : Candidate F) (p : IsRanked x) (q : IsRanked y) (r : IsRanked z).
        not_lt_trans x.adaptive_rate y.adaptive_rate z.adaptive_rate p.rate q.rate r.rate in
      let cost = λ (x y z : Candidate F) (p : IsRanked x) (q : IsRanked y) (r : IsRanked z).
        not_lt_trans x.cost y.cost z.cost p.cost q.cost r.cost in
      rw (less-eq-lexi c d u v, less-eq-lexi d e v w, less-eq-lexi c e u w)
        (lexi_trans _ _ _ _ _ _ _ _ _ (λ a b. rate e d c w v u b a) (λ a b. rate c d e u v w b a)
          (λ a b. rate e c d w u v b a) (λ a b. rate d c e v u w b a) (λ a b. rate d e c v w u b a)
          (λ a b. rate c e d u w v b a)
          (lexi_trans _ _ _ _ _ _ _ _ _ (cost c d e u v w) (cost e d c w v u) (cost d c e v u w)
            (cost e c d w u v) (cost c e d u w v) (cost d e c v w u)
            (not_lt_trans c.failure_rate d.failure_rate e.failure_rate u.failure v.failure
              w.failure)))
