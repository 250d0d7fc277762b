-- ===== src/Prelude/Text.antt =====
-- The text operations of Python that the program uses: `str(n)` of a natural number and f-strings.
use Prim.Native.Nat.{ℕ, zero, suc, ◌+◌, ◌/◌, ◌%◌}
use Prim.Native.Char.{code}
use Prim.Native.String.{String, ◌++◌}
use mathlib.Core.Path.{◌≡◌, refl}
use mathlib.Core.Bool.{◌||◌}
use fintech_payments_data_pl.Prelude.Tests.{ltb, ◌==◌, if◌then◌else◌}

-- One decimal digit.
digit_text : ℕ → String
digit_text zero = "0"
digit_text (suc zero) = "1"
digit_text (suc (suc zero)) = "2"
digit_text (suc (suc (suc zero))) = "3"
digit_text (suc (suc (suc (suc zero)))) = "4"
digit_text (suc (suc (suc (suc (suc zero))))) = "5"
digit_text (suc (suc (suc (suc (suc (suc zero)))))) = "6"
digit_text (suc (suc (suc (suc (suc (suc (suc zero))))))) = "7"
digit_text (suc (suc (suc (suc (suc (suc (suc (suc zero)))))))) = "8"
digit_text _ = "9"

-- The digits of `n` in front of `rest`; the fuel `n + 1` is more than the number of digits.
digits_before : ℕ → ℕ → String → String
digits_before zero n rest = rest
digits_before (suc fuel) n rest =
    let more = digits_before fuel (n / 10) (digit_text (n % 10) ++ rest) in
    if ltb n 10 then digit_text n ++ rest else more

-- Python's `str(n)` for n ≥ 0
unfoldable pub str : ℕ → String
unfolding digits_before digit_text
str n = digits_before (n + 1) n ""

str_example : str 20345 ≡ "20345"
unfolding str
str_example = refl

-- `message.replace("\r", " ").replace("\n", " ")`
unfoldable pub replace_breaks : String → String
replace_breaks String.[] = String.[]
replace_breaks (String.◌∷◌ c s) =
    let rest = replace_breaks s in
    if code c == 13 || code c == 10 then String.◌∷◌ " " rest else String.◌∷◌ c rest

-- `s[:n]`
unfoldable pub prefix : ℕ → String → String
prefix (suc n) (String.◌∷◌ c s) = String.◌∷◌ c (prefix n s)
prefix _ _ = String.[]
