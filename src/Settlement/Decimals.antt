-- ===== src/Settlement/Decimals.antt =====
-- `Decimal` as src/ingestion/batch/validation.py uses it: what a text denotes, its scale and
-- precision, and `quantize(Decimal("0.01"))` in the default context, of 28 digits, which rounds half
-- to even. A zero has no sign.
use Prim.Native.Nat.{◌/◌, ◌%◌, ◌^◌}
use fintech_payments_data_pl.Prelude.{
  ℕ, zero, suc, ◌+◌, ◌*◌, Bool, true, Result, ok, err, ◌==◌, ltb, if◌then◌else◌,
}
use fintech_payments_data_pl.Prelude.Int.{ℤ, pos, negsuc, magnitude}
use fintech_payments_data_pl.Settlement.Models.{Decimal}
use fintech_payments_data_pl.Settlement.Contracts.{Fault, invalid_operation}

-- What `Decimal(value)` returns; `as_tuple` of a finite one has the digits of the coefficient.
pub data Parsed : Type 0 where
  not_finite : Parsed
  finite : Bool → ℕ → ℤ → Parsed

-- The number of digits; the fuel `n + 1` is more than enough.
digits_from : ℕ → ℕ → ℕ
digits_from zero n = 1
digits_from (suc fuel) n = let more = digits_from fuel (n / 10) in if ltb n 10 then 1 else suc more

unfoldable pub digit_count : ℕ → ℕ
unfolding digits_from
digit_count n = digits_from (n + 1) n

-- `max(-exponent, 0)` and `max(exponent, 0)`
abbrev pub scale_of : ℤ → ℕ
scale_of (pos n) = 0
scale_of (negsuc n) = n + 1

abbrev zeros_of : ℤ → ℕ
zeros_of (pos n) = n
zeros_of (negsuc n) = 0

unfoldable pub precision_of : ℕ → ℤ → ℕ
precision_of coefficient exponent = digit_count coefficient + zeros_of exponent

-- A quotient with its remainder, rounded half to even.
half_even : ℕ → ℕ → ℕ → ℕ
half_even q r d =
    if ltb (2 * r) d then q else if ltb d (2 * r) then q + 1 else if q % 2 == 0 then q else q + 1

-- The multiple of a cent.
unfoldable pub cents : ℕ → ℤ → ℕ
unfolding half_even
cents c (pos e) = c * 10 ^ (e + 2)
cents c (negsuc zero) = c * 10
cents c (negsuc (suc zero)) = c
cents c (negsuc (suc (suc n))) = let d = 10 ^ (n + 1) in half_even (c / d) (c % d) d

abbrev signed : Bool → ℕ → ℤ
signed true (suc n) = negsuc n
signed _ n = pos n

abbrev pub in_cents : ℤ → Decimal
in_cents z = record { coefficient = z; exponent = negsuc 1 }

-- `quantize`, where a coefficient of more than 28 digits is an `InvalidOperation`
unfoldable pub fitting : ℤ → Result Fault Decimal
fitting z = if ltb (magnitude z) (10 ^ 28) then ok (in_cents z) else err invalid_operation

unfoldable pub quantize : Bool → ℕ → ℤ → Result Fault Decimal
quantize negative coefficient exponent = fitting (signed negative (cents coefficient exponent))
