-- ===== src/Prelude/Float.antt =====
-- Python's floats: the operations that the program calls, as an interface. The carrier `W` is the
-- floats that are not NaN; no operation that the program makes is taken to yield NaN.
use Prim.Native.Nat.{ℕ, suc, ◌+◌, ◌-◌, ◌*◌, ◌/◌, ◌≤◌, ◌<◌}
use native.Mathlib.Nat.{mul-le-mul, le_refl, le-div_iff_mul-le, div-mul-le_self}
use native.Mathlib.Decide.{dec_le}
use mathlib.Core.Bool.{Bool, true, false, not}
use mathlib.Core.Path.{◌≡◌, refl}
use native.Mathlib.Omega.{arith}
use predictive_consistent_ha.Prelude.Choice.{IsWeakOrder}
use predictive_consistent_ha.Prelude.Tests.{ltb, if◌then◌else◌}

pub record Float (W : Type 0) : Type 0 where
  -- `n / d` of two integers, and the literals: 0.85 is `ratio 85 100`.
  pub ratio : ℕ → ℕ → W
  pub lt : W → W → Bool
  pub add : W → W → W
  pub sub : W → W → W
  pub mul : W → W → W
  pub div : W → W → W
  -- `int(x)` and `int(round(x))`, for an `x` that is not negative.
  pub trunc : W → ℕ
  pub nearest : W → ℕ
  -- `round(x, digits)`
  pub rounded : ℕ → W → W

module _ {W : Type 0} ⦃f : Float W⦄ where
  -- `a <= b`; without NaN it is the negation of `b < a`.
  abbrev pub le : W → W → Bool
  le a b = not (f.lt b a)

  abbrev pub of_nat : ℕ → W
  of_nat n = f.ratio n 1

  -- `min(a, b)` and `max(a, b)` keep their first argument on a tie.
  abbrev pub fmin : W → W → W
  fmin a b = if f.lt b a then b else a

  abbrev pub fmax : W → W → W
  fmax a b = if f.lt a b then b else a

  infix 50 ◌≼◌
  abbrev pub ◌≼◌ : W → W → Type 0
  a ≼ b = f.lt b a ≡ false

-- What the program relies on: a total preorder, and operations that round monotonically.
pub record IsOrdered (W : Type 0) ⦃f : Float W⦄ : Type 0 where
  pub lt_asymm : (a b : W) → f.lt a b ≡ true → a ≼ b
  pub le_trans : (a b c : W) → a ≼ b → b ≼ c → a ≼ c
  pub ratio_mono : (a b c d : ℕ) → 0 < b → 0 < d → a * d ≤ c * b → f.ratio a b ≼ f.ratio c d
  pub zero_lt : (n : ℕ) → 0 < n → f.lt (f.ratio 0 1) (f.ratio n 1) ≡ true
  pub div_nonneg :
      (a b : W) → f.ratio 0 1 ≼ a → f.lt (f.ratio 0 1) b ≡ true → f.ratio 0 1 ≼ f.div a b
  pub add_mono : (a b c d : W) → a ≼ b → c ≼ d → f.add a c ≼ f.add b d
  pub mul_mono :
      (a b c d : W) → f.ratio 0 1 ≼ a → f.ratio 0 1 ≼ c → a ≼ b → c ≼ d → f.mul a c ≼ f.mul b d

module _ {W : Type 0} ⦃f : Float W⦄ (laws : IsOrdered W) where
  pub ≼_refl : (a : W) → a ≼ a
  ≼_refl a = ground (arith, laws.lt_asymm a a)

  pub fmin-le_right : (a b : W) → fmin a b ≼ b
  fmin-le_right a b = ground (arith, ≼_refl b)

  pub le-fmin : (a b c : W) → c ≼ a → c ≼ b → c ≼ fmin a b
  le-fmin a b c h k = ground arith

-- Of the laws of rounding, those that running averages and sums use.
pub record IsRounded (W : Type 0) ⦃f : Float W⦄ : Type 0 where
  pub add_nonneg : (a b : W) → f.ratio 0 1 ≼ a → f.ratio 0 1 ≼ b → f.ratio 0 1 ≼ f.add a b
  pub mul_nonneg : (a b : W) → f.ratio 0 1 ≼ a → f.ratio 0 1 ≼ b → f.ratio 0 1 ≼ f.mul a b
  pub sub_mono : (a b c : W) → a ≼ b → f.sub a c ≼ f.sub b c
  -- 0.1 * 1.0 + 0.9 * 1.0 is 1.0.
  pub tenths_le :
      f.add (f.mul (f.ratio 1 10) (f.ratio 1 1)) (f.mul (f.ratio 9 10) (f.ratio 1 1)) ≼ f.ratio 1 1

module _ {W : Type 0} ⦃f : Float W⦄ where
  abbrev pub InUnit : W → Type 0
  InUnit x = (of_nat 0 ≼ x) × (x ≼ of_nat 1)

  pub fmax-nonneg : IsOrdered W → (x : W) → of_nat 0 ≼ fmax x (of_nat 0)
  fmax-nonneg laws x = ground (arith, ≼_refl laws (of_nat 0), laws.lt_asymm x (of_nat 0))

  pub ratio-InUnit : IsOrdered W → (n d : ℕ) → 0 < d → n ≤ d → InUnit (f.ratio n d)
  ratio-InUnit laws n d h k = (
    laws.ratio_mono 0 1 n d (omega arith) h (omega arith),
    laws.ratio_mono n d 1 1 h (omega arith) (omega arith),
  )

  pub fmin_one : IsOrdered W → (x : W) → of_nat 0 ≼ x → InUnit (fmin x (of_nat 1))
  fmin_one laws x h = (
    le-fmin laws x (of_nat 1) (of_nat 0) h (ratio-InUnit laws 1 1 (omega arith) (omega arith)).0,
    fmin-le_right laws x (of_nat 1),
  )

-- The laws can be met: fixed point in thousandths.
instance abbrev pub milli : Float ℕ
milli = record {
  ratio = λ n d. n * 1000 / d;
  lt = ltb;
  add = λ a b. a + b;
  sub = λ a b. a - b;
  mul = λ a b. a * b / 1000;
  div = λ a b. a * 1000 / b;
  trunc = λ a. a / 1000;
  nearest = λ a. (a + 500) / 1000;
  rounded = λ digits a. a;
}

milli-ratio-le : (a b c d q : ℕ) → 0 < b → a * d ≤ c * b → q * b ≤ a * 1000 → q * d ≤ c * 1000
milli-ratio-le a b c d q hb h k = elim (dec_le (q * d) (c * 1000)) [
  | yes p ↦ p
  | no p ↦
      let big : suc (c * 1000) ≤ q * d = omega arith in
      absurd (omega (arith, mul-le-mul big (le_refl b), mul-le-mul k (le_refl d)))
]

milli-ratio_mono :
    (a b c d : ℕ) → 0 < b → 0 < d → a * d ≤ c * b → ltb (c * 1000 / d) (a * 1000 / b) ≡ false
milli-ratio_mono a b c d hb hd h =
    let below =
      (le-div_iff_mul-le {x = a * 1000 / b} {y = c * 1000} hd).1
        (milli-ratio-le a b c d _ hb h (div-mul-le_self (a * 1000) b)) in
    ground arith

milli-zero_lt : (n : ℕ) → 0 < n → ltb (0 * 1000 / 1) (n * 1000 / 1) ≡ true
milli-zero_lt n h = ground arith

milli-mul_mono : (a b c d : ℕ) → a ≤ b → c ≤ d → ltb (b * d / 1000) (a * c / 1000) ≡ false
milli-mul_mono a b c d h k = let p = mul-le-mul h k in ground arith

pub milli-IsOrdered : IsOrdered ℕ
milli-IsOrdered = record {
  lt_asymm = ground arith;
  le_trans = ground arith;
  ratio_mono = milli-ratio_mono;
  zero_lt = λ n h. milli-zero_lt n h;
  div_nonneg = λ a b _ _. ground arith;
  add_mono = ground arith;
  mul_mono = λ a b c d _ _ h k. milli-mul_mono a b c d (ground arith) (ground arith);
}

pub IsOrdered-IsWeakOrder : {W : Type 0} ⦃f : Float W⦄ → IsOrdered W → IsWeakOrder f.lt
IsOrdered-IsWeakOrder laws = record { asymm = laws.lt_asymm; trans = laws.le_trans }

pub milli-IsRounded : IsRounded ℕ
milli-IsRounded = record {
  add_nonneg = λ a b _ _. ground arith;
  mul_nonneg = λ a b _ _. ground arith;
  sub_mono = ground arith;
  tenths_le = refl;
}
