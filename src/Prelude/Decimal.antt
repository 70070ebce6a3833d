-- ===== src/Prelude/Decimal.antt =====
-- The `%d` of fmt, and integer division towards zero.
use Prim.Native.Nat.{ℕ, zero, suc, ◌+◌, ◌*◌, ◌-◌, ◌^◌, ◌/◌, ◌%◌}
use mathlib.Core.Bool.{◌&&◌}
use mathlib.Core.Option.{Option, none, some}
use mathlib.Core.List.{[], ◌∷◌, ◌++◌}
use web_demo_go.Prelude.Tests.{ltb, leb, nat_eq, if◌then◌else◌}
use web_demo_go.Prelude.Texts.{Text}
use web_demo_go.Prelude.Int.{ℤ, pos, negsuc, sub_ℕ}

-- The decimal digits of `n`, given fuel that is not less than their number.
unfoldable pub digits_fuel : ℕ → ℕ → Text
digits_fuel zero n = []
digits_fuel (suc f) n =
    let rest = digits_fuel f (n / 10) ++ (b'0' + n % 10) ∷ [] in
    if ltb n 10 then (b'0' + n) ∷ [] else rest

unfoldable pub print_nat : ℕ → Text
unfolding digits_fuel
print_nat n = digits_fuel (suc n) n

unfoldable pub print_int : ℤ → Text
unfolding print_nat
print_int (pos n) = print_nat n
print_int (negsuc n) = b'-' ∷ print_nat (suc n)

-- `a / d` for an integer `a` and a positive `d`.
unfoldable pub div_trunc : ℤ → ℕ → ℤ
div_trunc (pos n) d = pos (n / d)
div_trunc (negsuc n) d = sub_ℕ 0 (suc n / d)

-- The digits of `strconv.ParseInt` in base 10, after those of `n`.
unfoldable pub parse_digits : ℕ → Text → Option ℕ
parse_digits n [] = some n
parse_digits n (b ∷ s) =
    let rest = parse_digits (n * 10 + (b - b'0')) s in
    if leb b'0' b && leb b b'9' then rest else none

-- Digits without a sign, of a value that is at most `most`.
unfoldable pub parse_unsigned : ℕ → Text → Option ℕ
unfolding parse_digits
parse_unsigned most [] = none
parse_unsigned most (b ∷ s) = elim (parse_digits 0 (b ∷ s)) [
  | none ↦ none
  | some n ↦ if leb n most then some n else none
]

-- `strconv.ParseInt(s, 10, 64)`; `none` where it returns an error.
unfoldable pub parse_int : Text → Option ℤ
unfolding parse_unsigned
parse_int [] = none
parse_int (b ∷ s) =
    if nat_eq b b'-'
    then elim (parse_unsigned (2 ^ 63) s) [ none ↦ none | some n ↦ some (sub_ℕ 0 n) ]
    else (if nat_eq b b'+'
        then elim (parse_unsigned (2 ^ 63 - 1) s) [ none ↦ none | some n ↦ some (pos n) ]
        else elim (parse_unsigned (2 ^ 63 - 1) (b ∷ s)) [ none ↦ none | some n ↦ some (pos n) ])
