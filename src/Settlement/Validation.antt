-- ===== src/Settlement/Validation.antt =====
-- src/ingestion/batch/validation.py: one row of a settlement file. A check appends to the list of
-- issues, which is the state; `Reader` is what the checks use of Python's library, and a date, a time
-- and a UUID are the texts that Python prints for them.
pub mod Clean
pub mod Facts
pub mod Rows
use Prim.Native.String.{◌++◌, count}
use fintech_payments_data_pl.Prelude.{
  ℕ, ◌+◌, String, Bool, true, false, not, ◌&&◌, ◌||◌, Option, none, some, List, [], ◌∷◌, Result, ok,
  err, Exec, pure, raise, ◌>>=◌, ◌>>◌, answer, ◌==◌, ltb, str_eq, if◌then◌else◌,
}
use mathlib.Core.List.{◌++◌ as ◌+++◌}
use fintech_payments_data_pl.Prelude.Int.{ℤ, ◌-ℤ◌, eq_int, is_positive, is_negative}
use fintech_payments_data_pl.Prelude.Dict.{Dict, get}
use fintech_payments_data_pl.Prelude.Text.{str}
use fintech_payments_data_pl.Storage.{text_Eq}
use fintech_payments_data_pl.Settlement.Models.{
  FilenameMetadata, Decimal, SettlementRecord, ValidationIssue,
}
use fintech_payments_data_pl.Settlement.Contracts.{FieldContract, SettlementContract, Fault, field}
use fintech_payments_data_pl.Settlement.Decimals.{
  Parsed, not_finite, finite, scale_of, precision_of, quantize, fitting,
}

-- A time that a text denotes, without a UTC offset or as its text in UTC.
pub data Timestamp : Type 0 where
  naive : Timestamp
  aware : String → Timestamp

-- `strip`, `re.fullmatch`, `date.fromisoformat`, `UUID`, `datetime.fromisoformat` after the
-- replacement of "Z", and `Decimal`; `none` where they raise.
pub record Reader : Type 0 where
  pub strip : String → String
  pub matches : String → String → Bool
  pub date_of : String → Option String
  pub uuid_of : String → Option String
  pub timestamp_of : String → Option Timestamp
  pub decimal_of : String → Option Parsed

abbrev pub Raw : Type 0
Raw = Dict String (Option String)

abbrev pub Check : Type 0 → Type 0
Check A = Exec Fault (List ValidationIssue) A

-- `issues.append(ValidationIssue(code, message))`
pub report : String → String → Check (Unit {0})
report code message issues = (ok tt, issues +++ record { code = code; message = message } ∷ [])

-- `if test: issues.append(...)`
pub report_if : Bool → String → String → Check (Unit {0})
report_if true code message = report code message
report_if false code message = pure tt

-- `raw.get(name)`
unfoldable pub raw_value : Option (Option String) → Option String
raw_value none = none
raw_value (some v) = v

unfoldable pub is_empty : String → Bool
is_empty s = str_eq s ""

unfoldable pub or_empty : Option String → String
or_empty none = ""
or_empty (some s) = s

pub join_with : String → List String → String
join_with sep [] = ""
join_with sep (x ∷ []) = x
join_with sep (x ∷ y ∷ xs) = x ++ sep ++ join_with sep (y ∷ xs)

-- `field.max_length and len(stripped) > field.max_length`
exceeds : Option ℕ → ℕ → Bool
exceeds none n = false
exceeds (some m) n = not (m == 0) && ltb m n

-- `field.scale is not None and scale > field.scale`
above : Option ℕ → ℕ → Bool
above none n = false
above (some m) n = ltb m n

unfoldable pub is_member : String → List String → Bool
is_member s [] = false
is_member s (x ∷ xs) = str_eq x s || is_member s xs

module _ (py : Reader) where
  -- `_text`
  unfoldable pub text : Raw → String → String
  unfolding raw_value or_empty
  text raw name = py.strip (or_empty (raw_value (get name raw)))

  -- The body of the loop over the contract's fields.
  pub check_value : FieldContract → Option String → Check (Unit {0})
  unfolding report_if is_empty exceeds
  check_value f none =
      report_if f.required "REQUIRED_FIELD_MISSING" (f.name ++ " column value is missing")
  check_value f (some value) = do
    report_if (is_empty (py.strip value) && not f.nullable) "REQUIRED_FIELD_EMPTY"
        (f.name ++ " must not be empty")
    report_if (not (is_empty (py.strip value)) && exceeds f.max_length (count (py.strip value)))
        "MAX_LENGTH_EXCEEDED" (f.name ++ " exceeds maximum length")

  pub check_fields : Raw → List FieldContract → Check (Unit {0})
  unfolding check_value raw_value
  check_fields raw [] = pure tt
  check_fields raw (f ∷ fs) = do check_value f (raw_value (get f.name raw)); check_fields raw fs

  -- `_parse_date`, `_parse_optional_uuid` and `_parse_timestamp`
  parsed_or : String → String → Option String → Check (Option String)
  unfolding report
  parsed_or code message none = do report code message; pure none
  parsed_or code message (some v) = pure (some v)

  pub parse_date : String → Check (Option String)
  unfolding parsed_or is_empty
  parse_date value =
      if is_empty value
      then pure none
      else parsed_or "INVALID_SETTLEMENT_DATE" "settlement_date is not ISO date" (py.date_of value)

  pub parse_optional_uuid : String → Check (Option String)
  unfolding parsed_or is_empty
  parse_optional_uuid value =
      if is_empty value
      then pure none
      else parsed_or "INVALID_INTERNAL_TRANSACTION_ID" "internal_transaction_id is not UUID"
          (py.uuid_of value)

  in_utc : Option Timestamp → Check (Option String)
  unfolding report
  in_utc none = do
    report "INVALID_TRANSACTION_TIMESTAMP" "transaction_timestamp is not ISO-8601"
    pure none
  in_utc (some naive) = do
    report "TIMESTAMP_TIMEZONE_REQUIRED" "transaction_timestamp must contain an explicit UTC offset"
    pure none
  in_utc (some (aware t)) = pure (some t)

  pub parse_timestamp : String → Check (Option String)
  unfolding in_utc is_empty
  parse_timestamp value = if is_empty value then pure none else in_utc (py.timestamp_of value)

  -- `_parse_decimal`
  abbrev rejected : String → String → Check (Option Decimal)
  rejected code message = report code message >> pure none

  quantized : Result Fault Decimal → Check (Option Decimal)
  quantized r = do d ← answer r; pure (some d)

  limit_text : Option ℕ → String
  limit_text none = "None"
  limit_text (some n) = str n

  within : FieldContract → String → Option Parsed → Check (Option Decimal)
  unfolding quantized above limit_text
  within f name none = rejected "INVALID_DECIMAL" (name ++ " is not a decimal")
  within f name (some not_finite) = rejected "INVALID_DECIMAL" (name ++ " must be finite")
  within f name (some (finite negative coefficient exponent)) =
      if above f.scale (scale_of exponent)
      then rejected "DECIMAL_SCALE_EXCEEDED" (name ++ " exceeds scale " ++ limit_text f.scale)
      else if above f.precision (precision_of coefficient exponent)
      then rejected "DECIMAL_PRECISION_EXCEEDED"
          (name ++ " exceeds precision " ++ limit_text f.precision)
      else quantized (quantize negative coefficient exponent)

  pub parse_decimal : String → FieldContract → String → Check (Option Decimal)
  unfolding within is_empty
  parse_decimal value f name =
      if is_empty value then pure none else within f name (py.decimal_of value)

  -- The signs and the sum of the amounts.
  pub check_amount : Option Decimal → Check (Unit {0})
  check_amount none = pure tt
  check_amount (some d) =
      report_if (not (is_positive d.coefficient)) "AMOUNT_NOT_POSITIVE"
        "amount must be greater than zero"

  pub check_fee : Option Decimal → Check (Unit {0})
  check_fee none = pure tt
  check_fee (some d) =
      report_if (is_negative d.coefficient) "NEGATIVE_FEE_AMOUNT"
        "fee_amount must be zero or greater"

  pub check_net : Option Decimal → Option Decimal → Option Decimal → Check (Unit {0})
  check_net (some amount) (some fee) (some net) = do
    expected ← answer (fitting (amount.coefficient -ℤ fee.coefficient))
    report_if (not (eq_int net.coefficient expected.coefficient)) "NET_AMOUNT_INCONSISTENT"
        "net_amount must equal amount minus fee_amount"
  check_net _ _ _ = pure tt

  pub check_date : Option String → String → Check (Unit {0})
  check_date none expected = pure tt
  check_date (some d) expected =
      report_if (not (str_eq d expected)) "SETTLEMENT_DATE_MISMATCH"
        "settlement_date does not match file name"

  -- `value and not re.fullmatch(contract.field(name).pattern or "", value)`
  pub check_pattern : SettlementContract → String → String → String → String → Check (Unit {0})
  unfolding is_empty or_empty
  check_pattern c name value code message = if is_empty value then pure tt else (do
    f ← field c name
    report_if (not (py.matches (or_empty f.pattern) value)) code message)

  pub check_partner : FilenameMetadata → String → Check (Unit {0})
  unfolding is_empty
  check_partner filename partner_id =
      report_if (not (is_empty partner_id) && not (str_eq partner_id filename.partner_id))
        "PARTNER_MISMATCH" "partner_id does not match the file name"

  pub check_status : SettlementContract → String → Check (Unit {0})
  unfolding is_empty is_member join_with
  check_status c status = if is_empty status then pure tt else (do
    f ← field c "settlement_status"
    report_if (not (is_member status f.allowed_values)) "INVALID_SETTLEMENT_STATUS"
        ("settlement_status must be one of " ++ join_with ", " f.allowed_values))

  -- The record, unless a required value is `None` or an empty text; a date is neither.
  pub record_of :
      Raw
      → ℕ
      → Option String
      → Option String
      → Option String
      → Option Decimal
      → Option Decimal
      → Option Decimal
      → Option SettlementRecord
  unfolding is_empty
  record_of raw row (some settlement_date) uuid (some timestamp) (some amount) (some fee)
        (some net) =
      if is_empty (text raw "partner_id")
        || is_empty (text raw "settlement_reference")
        || is_empty (text raw "partner_transaction_reference")
        || is_empty (text raw "currency")
        || is_empty (text raw "settlement_status")
      then none
      else some (record {
        partner_id = text raw "partner_id";
        settlement_date = settlement_date;
        settlement_reference = text raw "settlement_reference";
        partner_transaction_reference = text raw "partner_transaction_reference";
        internal_transaction_id = uuid;
        transaction_timestamp = timestamp;
        amount = amount;
        currency = text raw "currency";
        settlement_status = text raw "settlement_status";
        fee_amount = fee;
        net_amount = net;
        source_row_number = row;
      })
  record_of raw row _ uuid _ _ _ _ = none

  pub unless_issues : Option SettlementRecord → Check (Option SettlementRecord)
  unless_issues r [] = (ok r, [])
  unless_issues r (i ∷ is) = (ok none, i ∷ is)

  -- `_validate_row`
  unfoldable pub validate_row :
      SettlementContract → FilenameMetadata → ℕ → Raw → Check (Option SettlementRecord)
  unfolding check_fields check_pattern check_partner parse_date check_date parse_optional_uuid
      parse_timestamp parse_decimal check_amount check_status check_fee check_net record_of
      unless_issues
  validate_row c filename row raw = do
    check_fields raw c.fields
    check_pattern c "partner_id" (text raw "partner_id") "INVALID_PARTNER_ID"
        "partner_id format is invalid"
    check_partner filename (text raw "partner_id")
    settlement_date ← parse_date (text raw "settlement_date")
    check_date settlement_date filename.settlement_date
    uuid ← parse_optional_uuid (text raw "internal_transaction_id")
    timestamp ← parse_timestamp (text raw "transaction_timestamp")
    amount_field ← field c "amount"
    amount ← parse_decimal (text raw "amount") amount_field "amount"
    check_amount amount
    check_pattern c "currency" (text raw "currency") "INVALID_CURRENCY"
        "currency must be three uppercase letters"
    check_status c (text raw "settlement_status")
    fee_field ← field c "fee_amount"
    fee ← parse_decimal (text raw "fee_amount") fee_field "fee_amount"
    check_fee fee
    net_field ← field c "net_amount"
    net ← parse_decimal (text raw "net_amount") net_field "net_amount"
    check_net amount fee net
    unless_issues (record_of raw row settlement_date uuid timestamp amount fee net)
