-- ===== src/Prelude/Digits.antt =====
-- Reading back what the `%d` of fmt prints.
use Prim.Native.Nat.{ℕ, zero, suc, ◌+◌, ◌-◌, ◌*◌, ◌/◌, ◌%◌, ◌^◌, ◌≤◌, ◌<◌}
use mathlib.Core.Path.{◌≡◌, refl, ap, sym, ◌∙◌, subst}
use mathlib.Core.Logic.{inl, inr, ◌≢◌}
use mathlib.Core.Option.{some}
use mathlib.Core.List.{[], ◌∷◌, ◌++◌}
use native.Mathlib.Omega.{arith}
use web_demo_go.Prelude.Tests.{ltb, Bool-cases}
use web_demo_go.Prelude.Lists.{All}
use web_demo_go.Prelude.Texts.{Text}
use web_demo_go.Prelude.Int.{ℤ, pos, negsuc}
use web_demo_go.Prelude.Decimal.{
  parse_int, parse_unsigned, parse_digits, digits_fuel, print_nat, print_int,
}

-- The number that decimal digits stand for, after those of `n`.
read_after : ℕ → Text → ℕ
read_after n [] = n
read_after n (b ∷ s) = read_after (n * 10 + (b - b'0')) s

read_after-last :
    (n : ℕ) (s : Text) (b : ℕ) → read_after n (s ++ b ∷ []) ≡ read_after n s * 10 + (b - b'0')
unfolding read_after
read_after-last n [] b = refl
read_after-last n (c ∷ s) b = read_after-last (n * 10 + (c - b'0')) s b

read_after-digits : (f n : ℕ) → n < f → read_after 0 (digits_fuel f n) ≡ n
unfolding read_after digits_fuel
read_after-digits zero n h = absurd (omega arith)
read_after-digits (suc f) n h =
    let quotient = read_after-digits f (n / 10) in
    let last = read_after-last 0 (digits_fuel f (n / 10)) (b'0' + n % 10) in
    ground (arith, quotient, last)

-- A decimal digit.
abbrev IsDigit : ℕ → Type 0
IsDigit b = (b'0' ≤ b) × (b ≤ b'9')

All-snoc : (s : Text) (b : ℕ) → All IsDigit s → IsDigit b → All IsDigit (s ++ b ∷ [])
All-snoc [] b all h = (h, tt)
All-snoc (c ∷ s) b (first, all) h = (first, All-snoc s b all h)

digits-IsDigit : (f n : ℕ) → All IsDigit (digits_fuel f n)
unfolding digits_fuel
digits-IsDigit zero n = tt
digits-IsDigit (suc f) n = elim (Bool-cases (ltb n 10)) [
  | inl small ↦ let below : n < 10 = ground arith in rw small ((omega arith, omega arith), tt)
  | inr large ↦ rw large (
      All-snoc (digits_fuel f (n / 10)) (b'0' + n % 10) (digits-IsDigit f (n / 10))
        (omega arith, omega arith))
]

print_nat_injective : (m n : ℕ) → print_nat m ≡ print_nat n → m ≡ n
unfolding print_nat
print_nat_injective m n h =
    sym (read_after-digits (suc m) m (omega arith))
    ∙ ap (read_after 0) h
    ∙ read_after-digits (suc n) n (omega arith)

not_minus : (n : ℕ) (s : Text) → print_nat n ≢ b'-' ∷ s
unfolding print_nat
not_minus n s h =
    let first = subst (All IsDigit) h (digits-IsDigit (suc n) n) in omega (arith, first.0.0)

pub print_int_injective : (a b : ℤ) → print_int a ≡ print_int b → a ≡ b
unfolding print_int
print_int_injective (pos m) (pos n) h = ap pos (print_nat_injective m n h)
print_int_injective (pos m) (negsuc n) h = absurd (not_minus m (print_nat (suc n)) h)
print_int_injective (negsuc m) (pos n) h = absurd (not_minus n (print_nat (suc m)) (sym h))
print_int_injective (negsuc m) (negsuc n) h =
    let same = print_nat_injective (suc m) (suc n) (ground arith) in ground arith

parse_digits-read_after :
    (n : ℕ) (s : Text) → All IsDigit s → parse_digits n s ≡ some (read_after n s)
unfolding parse_digits read_after
parse_digits-read_after n [] all = refl
parse_digits-read_after n (b ∷ s) (first, all) =
    ground (arith, parse_digits-read_after (n * 10 + (b - b'0')) s all)

snoc_ne : (s : Text) (b : ℕ) → s ++ b ∷ [] ≢ []
snoc_ne [] b = λ e. cc
snoc_ne (c ∷ s) b = λ e. cc

print_nat_ne : (n : ℕ) → print_nat n ≢ []
unfolding print_nat digits_fuel
print_nat_ne n = elim (Bool-cases (ltb n 10)) [
  | inl small ↦ rw small (λ e. cc)
  | inr large ↦ rw large (snoc_ne (digits_fuel n (n / 10)) (b'0' + n % 10))
]

parse_unsigned-some :
    (most n : ℕ) (s : Text)
    → s ≢ []
    → parse_digits 0 s ≡ some n
    → n ≤ most
    → parse_unsigned most s ≡ some n
unfolding parse_unsigned
parse_unsigned-some most n [] ne h k = absurd (ne refl)
parse_unsigned-some most n (b ∷ s) ne h k = ground arith

parse_unsigned-print_nat : (most n : ℕ) → n ≤ most → parse_unsigned most (print_nat n) ≡ some n
unfolding print_nat
parse_unsigned-print_nat most n h =
    parse_unsigned-some most n (print_nat n) (print_nat_ne n)
      (parse_digits-read_after 0 (print_nat n) (digits-IsDigit (suc n) n)
        ∙ ap some (read_after-digits (suc n) n (omega arith)))
      h

parse_int-plain :
    (n : ℕ) (s : Text)
    → All IsDigit s
    → parse_unsigned (2 ^ 63 - 1) s ≡ some n
    → parse_int s ≡ some (pos n)
unfolding parse_int parse_unsigned
parse_int-plain n [] all h = absurd (ground arith)
parse_int-plain n (b ∷ s) (first, all) h = ground arith

parse_int-minus :
    (n : ℕ) (s : Text)
    → parse_unsigned (2 ^ 63) s ≡ some (suc n)
    → parse_int (b'-' ∷ s) ≡ some (negsuc n)
unfolding parse_int
parse_int-minus n s h = ground arith

-- An integer of 64 bits.
abbrev pub IsInt64 : ℤ → Type 0
IsInt64 (pos n) = n < 2 ^ 63
IsInt64 (negsuc n) = n < 2 ^ 63

-- Parsing gives back every 64-bit integer that was printed.
pub parse_int-print_int : (a : ℤ) → IsInt64 a → parse_int (print_int a) ≡ some a
unfolding print_int print_nat
parse_int-print_int (pos n) h =
    parse_int-plain n (print_nat n) (digits-IsDigit (suc n) n)
      (parse_unsigned-print_nat (2 ^ 63 - 1) n (omega arith))
parse_int-print_int (negsuc n) h =
    parse_int-minus n (print_nat (suc n)) (parse_unsigned-print_nat (2 ^ 63) (suc n) (omega arith))
