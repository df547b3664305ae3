-- ===== src/Money/Rounding.antt =====
-- Arithmetic on amounts under Python's default decimal context: a result of more than 28 significant
-- digits is rounded to 28, half to even.
use Prim.Native.Nat.{zero, suc, ◌^◌, ◌%◌}
use faar_runtime.Common.{
  ℕ, ◌+◌, ◌*◌, ◌/◌, ◌≤◌, ◌<◌, ◌≡◌, refl, arith, ap, subst, Bool, true, false, ◌&&◌, ◌||◌, List, [],
  ◌∷◌, ◌++◌, ltb, ◌==◌, ==_iff, eq_refl, if◌then◌else◌,
}

abbrev pub coefficient_limit : ℕ
coefficient_limit = 10 ^ 28

-- The power of ten that leaves at most 28 digits before it. A step takes a digit away, so that a
-- number is fuel enough for itself.
unfoldable pub excess : ℕ → ℕ → ℕ
excess zero n = 1
excess (suc fuel) n = elim (ltb n coefficient_limit) [
  | true ↦ 1
  | false ↦ 10 * excess fuel (n / 10)
]

-- `q` units and `r` beyond them, of `p` to the unit
abbrev pub rounds_up : ℕ → ℕ → ℕ → Bool
rounds_up p q r = ltb p (2 * r) || (2 * r == p && q % 2 == 1)

abbrev pub half_even : ℕ → ℕ → ℕ → ℕ
half_even p q r = if rounds_up p q r then (q + 1) * p else q * p

unfoldable pub round28 : ℕ → ℕ
unfolding excess
round28 n = let p = excess n n in half_even p (n / p) (n % p)

-- A decimal in units of 10^-100, with its sign: a zero of each sign, equal as numbers only.
pub data Decimal : Type 0 where
  plus minus : ℕ → Decimal

-- Decimal.normalize: the number is rounded, and its trailing zeros do not matter.
unfoldable pub normalize : Decimal → Decimal
unfolding round28
normalize (plus n) = plus (round28 n)
normalize (minus n) = minus (round28 n)

-- The text that `format(…, "f")` gives of a normalized decimal tells its sign and its number.
abbrev pub same_decimal : Decimal → Decimal → Bool
same_decimal (plus a) (plus b) = a == b
same_decimal (minus a) (minus b) = a == b
same_decimal _ _ = false

pub same_decimal_sound : (a b : Decimal) → same_decimal a b ≡ true → a ≡ b
same_decimal_sound (plus a) (plus b) h = ap plus ((==_iff a b).0 h)
same_decimal_sound (minus a) (minus b) h = ap minus ((==_iff a b).0 h)
same_decimal_sound (plus a) (minus b) h = cc
same_decimal_sound (minus a) (plus b) h = cc

pub same_decimal_refl : (a : Decimal) → same_decimal a a ≡ true
same_decimal_refl (plus a) = eq_refl a
same_decimal_refl (minus a) = eq_refl a

-- a + b
unfoldable pub add28 : ℕ → ℕ → ℕ
unfolding round28
add28 a b = round28 (a + b)

module _ {ℓ} {A : Type ℓ} where
  -- sum(…, acc) over the rows of a condition, from left to right
  unfoldable pub sum28 : (A → Bool) → (A → ℕ) → ℕ → List A → ℕ
  unfolding add28
  sum28 p f acc [] = acc
  sum28 p f acc (x ∷ xs) = sum28 p f (if p x then add28 acc (f x) else acc) xs

  pub sum28-append :
      (p : A → Bool) (f : A → ℕ) (acc : ℕ) (xs : List A) (y : A)
      → p y ≡ true
      → sum28 p f acc (xs ++ y ∷ []) ≡ add28 (sum28 p f acc xs) (f y)
  unfolding sum28
  sum28-append p f acc [] y h = rw (h) refl
  sum28-append p f acc (x ∷ xs) y h = sum28-append p f (if p x then add28 acc (f x) else acc) xs y h

step_fits : (n e : ℕ) → n / 10 < coefficient_limit * e → n < coefficient_limit * (10 * e)
step_fits n e h = omega (arith, h)

-- The fuel is enough: at most 28 digits stand before the power of ten.
pub excess_fits : (fuel n : ℕ) → n ≤ fuel → n < coefficient_limit * excess fuel n
unfolding excess
excess_fits zero n le = omega (arith, le)
excess_fits (suc fuel) n le = by_test (ltb n coefficient_limit) refl (excess_fits fuel (n / 10))
  where
    by_test :
        (b : Bool)
        → ltb n coefficient_limit ≡ b
        → (n / 10 ≤ fuel → n / 10 < coefficient_limit * excess fuel (n / 10))
        → n < coefficient_limit * (elim b [ true ↦ 1 | false ↦ 10 * excess fuel (n / 10) ])
    by_test true e h = ground arith
    by_test false e h = step_fits n (excess fuel (n / 10)) (h (omega (arith, le)))

-- A number of at most 28 digits is kept.
pub round28_exact : (n : ℕ) → n < coefficient_limit → round28 n ≡ n
unfolding round28 excess
round28_exact zero h = refl
round28_exact (suc n) h = ground arith

-- Rounding moves a number by at most half a unit of the last digit that is kept.
half_even_near :
    (p q r : ℕ)
    → r < p
    → (2 * half_even p q r ≤ 2 * (q * p + r) + p) × (2 * (q * p + r) ≤ 2 * half_even p q r + p)
half_even_near p q r h = by_test (rounds_up p q r) refl
  where
    by_test :
        (b : Bool)
        → rounds_up p q r ≡ b
        → (2 * (if b then (q + 1) * p else q * p) ≤ 2 * (q * p + r) + p)
          × (2 * (q * p + r) ≤ 2 * (if b then (q + 1) * p else q * p) + p)
    by_test true e = let le : p ≤ 2 * r = ground arith in (grind arith, grind arith)
    by_test false e = let le : 2 * r ≤ p = ground arith in (grind arith, grind arith)

excess_positive : (fuel n : ℕ) → 0 < excess fuel n
unfolding excess
excess_positive zero n = omega arith
excess_positive (suc fuel) n = by_test (ltb n coefficient_limit) (excess_positive fuel (n / 10))
  where
    by_test :
        (b : Bool)
        → 0 < excess fuel (n / 10)
        → 0 < (elim b [ true ↦ 1 | false ↦ 10 * excess fuel (n / 10) ])
    by_test true h = omega arith
    by_test false h = omega (arith, h)

quotient_of : (n p : ℕ) → 0 < p → (n / p * p + n % p ≡ n) × (n % p < p)
quotient_of n p h = (grind arith, grind arith)

pub round28_near :
    (n : ℕ) → (2 * round28 n ≤ 2 * n + excess n n) × (2 * n ≤ 2 * round28 n + excess n n)
unfolding round28
round28_near n =
    let (whole, part) = quotient_of n (excess n n) (excess_positive n n) in
    subst (λ m. (2 * round28 n ≤ 2 * m + excess n n) × (2 * m ≤ 2 * round28 n + excess n n)) whole
      (half_even_near (excess n n) (n / excess n n) (n % excess n n) part)
