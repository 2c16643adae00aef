-- ===== src/Base/Decimal.antt =====
-- `strconv.FormatInt(x, 10)`, `strconv.ParseInt(s, 10, 32)`, `strconv.FormatBool` and
-- `strconv.ParseBool`, as Go documents them.
use unifi_reactor.Base.{
  ℕ, zero, suc, ◌+◌, ◌-◌, ◌*◌, ◌/◌, ◌%◌, ◌<◌, ◌≤◌, Bool, true, false, ◌&&◌, ◌||◌, [], ◌∷◌, ◌++◌,
  Option, none, some, ◌≡◌, refl, arith, ltb, leb, ◌==◌, if◌then◌else◌, ap, ◌∙◌, inl, inr,
  Bool-cases,
}
use unifi_reactor.Base.Text.{Text, codes, same}
use unifi_reactor.Base.Int.{ℤ, pos, negsuc, IsInt32}

-- The digits of `n`, on fuel: more than `n` rounds are never needed.
digits_fuel : ℕ → ℕ → Text
digits_fuel zero n = []
digits_fuel (suc f) n =
    let rest = digits_fuel f (n / 10) ++ ((b'0' + n % 10) ∷ []) in
    if ltb n 10 then (b'0' + n) ∷ [] else rest

unfoldable pub format_int : ℤ → Text
unfolding digits_fuel
format_int (pos n) = digits_fuel (suc n) n
format_int (negsuc n) = b'-' ∷ digits_fuel (suc (suc n)) (suc n)

is_digit : ℕ → Bool
is_digit c = leb b'0' c && leb c b'9'

digits_from : ℕ → Text → Option ℕ
unfolding is_digit
digits_from acc [] = some acc
digits_from acc (c ∷ s) =
    let rest = digits_from (acc * 10 + (c - b'0')) s in if is_digit c then rest else none

-- One digit at least.
unfoldable pub parse_nat : Text → Option ℕ
unfolding digits_from
parse_nat [] = none
parse_nat (c ∷ s) = digits_from 0 (c ∷ s)

in_range : Option ℕ → ℕ → (ℕ → ℤ) → Option ℤ
in_range none bound sign = none
in_range (some n) bound sign = if leb n bound then some (sign n) else none

abbrev pub negate : ℕ → ℤ
negate zero = pos zero
negate (suc n) = negsuc n

-- `none` is the syntax error and the range error.
unfoldable pub parse_int32 : Text → Option ℤ
unfolding in_range
parse_int32 [] = none
parse_int32 (c ∷ s) =
    if c == b'-'
    then in_range (parse_nat s) 2147483648 negate
    else if c == b'+'
    then in_range (parse_nat s) 2147483647 pos
    else in_range (parse_nat (c ∷ s)) 2147483647 pos

unfoldable pub format_bool : Bool → Text
format_bool true = codes "true"
format_bool false = codes "false"

unfoldable pub parse_bool : Text → Option Bool
parse_bool s =
    if same s (codes "1")
      || same s (codes "t")
      || same s (codes "T")
      || same s (codes "true")
      || same s (codes "TRUE")
      || same s (codes "True")
    then some true
    else if same s (codes "0")
        || same s (codes "f")
        || same s (codes "F")
        || same s (codes "false")
        || same s (codes "FALSE")
        || same s (codes "False")
    then some false
    else none

pub parse-format_bool : (b : Bool) → parse_bool (format_bool b) ≡ some b
unfolding parse_bool format_bool same
parse-format_bool true = refl
parse-format_bool false = refl

digits_snoc :
    (acc : ℕ) (s : Text) (c n : ℕ)
    → digits_from acc s ≡ some n
    → c < 10
    → digits_from acc (s ++ ((b'0' + c) ∷ [])) ≡ some (n * 10 + c)
unfolding digits_from
digits_snoc acc [] c n e h = ground arith
digits_snoc acc (d ∷ s) c n e h = ground (arith, digits_snoc (acc * 10 + (d - b'0')) s c n)

digits_from-fuel : (f n : ℕ) → n < f → digits_from 0 (digits_fuel f n) ≡ some n
unfolding digits_fuel
digits_from-fuel zero n h = absurd (omega arith)
digits_from-fuel (suc f) n h = elim (Bool-cases (ltb n 10)) [
  | inl e ↦ rw e (unfold digits_from in ground arith)
  | inr e ↦
      let ih = digits_from-fuel f (n / 10) (ground (arith, e)) in
      rw e (
        digits_snoc 0 (digits_fuel f (n / 10)) (n % 10) (n / 10) ih (omega arith)
        ∙ ap some (omega arith))
]

-- What is printed begins with a digit.
record Printed (s : Text) : Type 0 where
  first : ℕ
  rest : Text
  split : s ≡ first ∷ rest
  low : b'0' ≤ first
  high : first ≤ b'9'

Printed-append : (s t : Text) → Printed s → Printed (s ++ t)
Printed-append s t p = record {
  first = p.first;
  rest = p.rest ++ t;
  split = ap (λ u. u ++ t) p.split;
  low = p.low;
  high = p.high;
}

digits_fuel-Printed : (f n : ℕ) → n < f → Printed (digits_fuel f n)
unfolding digits_fuel
digits_fuel-Printed zero n h = absurd (omega arith)
digits_fuel-Printed (suc f) n h = elim (Bool-cases (ltb n 10)) [
  | inl e ↦ rw e (record {
    first = b'0' + n;
    rest = [];
    split = refl;
    low = omega arith;
    high = ground (arith, e);
  })
  | inr e ↦ rw e (
      Printed-append (digits_fuel f (n / 10)) _
        (digits_fuel-Printed f (n / 10) (ground (arith, e))))
]

parse_nat-digits : (f n : ℕ) → n < f → parse_nat (digits_fuel f n) ≡ some n
unfolding parse_nat
parse_nat-digits f n h =
    let p = digits_fuel-Printed f n h in ground (arith, p.split, digits_from-fuel f n h)

-- A 32-bit integer that is printed in decimal is read back as itself.
pub parse-format_int : (a : ℤ) → IsInt32 a → parse_int32 (format_int a) ≡ some a
unfolding parse_int32 format_int
parse-format_int (pos n) h =
    let p = digits_fuel-Printed (suc n) n (omega arith) in
    ground (arith, p.split, p.low, p.high, parse_nat-digits (suc n) n (omega arith))
parse-format_int (negsuc n) h = ground (arith, parse_nat-digits (suc (suc n)) (suc n) (omega arith))

-- What is read is a 32-bit integer.
pub parse_int32-IsInt32 : (s : Text) (a : ℤ) → parse_int32 s ≡ some a → IsInt32 a
unfolding parse_int32
parse_int32-IsInt32 [] a e = ground arith
parse_int32-IsInt32 (c ∷ s) a e = ground arith
