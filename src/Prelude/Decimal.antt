-- ===== src/Prelude/Decimal.antt =====
-- The verb %d of package fmt for a number that is not negative.
use Prim.Native.Nat.{ℕ, zero, suc, ◌+◌, ◌-◌, ◌*◌, ◌/◌, ◌%◌, ◌^◌, ◌<◌}
use mathlib.Core.Path.{◌≡◌, refl, sym, ap, ◌∙◌}
use mathlib.Core.Logic.{inl, inr}
use mathlib.Core.List.{[], ◌∷◌}
use native.Mathlib.Omega.{arith}
use cloud_sre_agent.Prelude.Tests.{if◌then◌else◌, ltb, leb, ◌==◌, Bool-cases}
use cloud_sre_agent.Prelude.Strings.{Text, codes, is_empty}
use cloud_sre_agent.Prelude.Int.{ℤ, pos, negsuc}
use mathlib.Core.Bool.{Bool, ◌&&◌}
use mathlib.Core.Option
use mathlib.Core.Option.{Option, none, some}

-- The digits of `n` before `out`; `n` has at most as many digits as the fuel.
digits_from : ℕ → ℕ → Text → Text
digits_from zero n out = out
digits_from (suc fuel) n out =
    let more = digits_from fuel (n / 10) ((48 + n % 10) ∷ out) in
    if ltb n 10 then (48 + n) ∷ out else more

unfoldable pub format_int : ℕ → Text
unfolding digits_from
format_int n = digits_from (suc n) n []

format_int_test : format_int 1203 ≡ codes "1203"
unfolding format_int
format_int_test = refl

-- The number that a text of digits stands for, after the digits of `v`.
value_from : ℕ → Text → ℕ
value_from v [] = v
value_from v (c ∷ s) = value_from (v * 10 + (c - 48)) s

value_from-digits_from :
    (fuel n : ℕ) (out : Text) → n < fuel → value_from 0 (digits_from fuel n out) ≡ value_from n out
unfolding value_from digits_from
value_from-digits_from zero n out h = absurd (omega arith)
value_from-digits_from (suc fuel) n out h = elim (Bool-cases (ltb n 10)) [
  | inl one ↦ rw one (ap (λ v. value_from v out) (omega arith))
  | inr more ↦ rw more (
      value_from-digits_from fuel (n / 10) ((48 + n % 10) ∷ out) (ground arith)
      ∙ ap (λ v. value_from v out) (omega arith))
]

-- Two numbers that print alike are equal.
pub format_int-injective : (n m : ℕ) → format_int n ≡ format_int m → n ≡ m
unfolding format_int value_from
format_int-injective n m e =
    sym (value_from-digits_from (suc n) n [] (omega arith))
    ∙ (ap (value_from 0) e ∙ value_from-digits_from (suc m) m [] (omega arith))

is_digit : ℕ → Bool
is_digit c = leb 48 c && leb c 57

scan_digits : ℕ → Text → Option ℕ
scan_digits v [] = some v
scan_digits v (c ∷ s) = if is_digit c then scan_digits (v * 10 + (c - 48)) s else none

-- `strconv.ParseInt` in base ten into an int64, with an optional minus sign.
unfoldable pub parse_int : Text → Option ℤ
unfolding scan_digits is_digit Option.bind
parse_int [] = none
parse_int (c ∷ s) =
    let negative = Option.bind (scan_digits 0 s) (λ n.
      if n == 0 then some (pos 0) else if leb n (2 ^ 63) then some (negsuc (n - 1)) else none) in
    let positive =
      Option.bind (scan_digits 0 (c ∷ s)) (λ n. if ltb n (2 ^ 63) then some (pos n) else none) in
    if c == b'-' then (if is_empty s then none else negative) else positive

parse_int_test :
    (parse_int (codes "-12") ≡ some (negsuc 11))
    × (parse_int (codes "3") ≡ some (pos 3))
    × (parse_int (codes "1.5") ≡ none)
unfolding parse_int
parse_int_test = (refl, refl, refl)
