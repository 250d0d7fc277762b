-- ===== src/Settlement/Validation/Facts.antt =====
-- What each check of a row establishes when it reports nothing.
use Prim.Native.Nat.{◌^◌}
use fintech_payments_data_pl.Prelude.{
  ◌<◌, String, ◌≡◌, refl, sym, ◌∙◌, subst, Bool, true, false, not, ◌&&◌, Option, none, some,
  some_inj, List, [], ◌∷◌, All, Result, ok, err, pure, Bool-cases, inl, inr, arith, eq_iff, str_eq,
  ltb, ltb→lt,
}
use fintech_payments_data_pl.Prelude.Int.{
  ℤ, negsuc, magnitude, ◌-ℤ◌, eq_int→eq, is_positive, is_negative,
}
use fintech_payments_data_pl.Prelude.Dict.{get}
use fintech_payments_data_pl.Storage.{text_Eq}
use fintech_payments_data_pl.Settlement.Models.{
  SettlementRecord, FilenameMetadata, Decimal, ValidationIssue,
}
use fintech_payments_data_pl.Settlement.Contracts.{
  FieldContract, SettlementContract, Fault, invalid_operation, field, field_of,
}
use fintech_payments_data_pl.Settlement.Decimals.{
  Parsed, not_finite, finite, quantize, fitting, in_cents, scale_of, precision_of,
}
use fintech_payments_data_pl.Settlement.Validation.{
  Reader, Raw, Timestamp, naive, aware, raw_value, or_empty, is_empty, above, is_member,
  check_value, check_fields, parsed_or, parse_date, parse_optional_uuid, in_utc, parse_timestamp,
  quantized, within, parse_decimal, check_amount, check_fee, check_net, check_date, check_pattern,
  check_partner, check_status, unless_issues,
}
use fintech_payments_data_pl.Settlement.Validation.Clean.{
  Clean, Clean-pure, Clean-answer, Clean-report_if, Clean-report, Clean-last, Clean-then,
  returned_with,
}

field_of-state :
    (version name : String) (fs : List FieldContract) (s : List ValidationIssue)
    → (field_of version name fs s).1 ≡ s
unfolding field_of
field_of-state version name [] s = refl
field_of-state version name (f ∷ fs) s = elim (Bool-cases (str_eq f.name name)) [
  | inl same ↦ rw same refl
  | inr other ↦ rw other (field_of-state version name fs s)
]

-- The contract has the field.
abbrev pub Declares : SettlementContract → String → FieldContract → Type 0
Declares c name f = field c name [] ≡ returned_with f []

pub Clean-field :
    (c : SettlementContract) (name : String) → Clean Unit (field c name) (Declares c name)
unfolding field
Clean-field c name = record {
  keeps = λ s e. sym (field_of-state c.schema_version name c.fields s) ∙ e;
  gives = λ f u e. e;
}

-- A value that a nonempty text must have.
abbrev pub IsPresent {ℓ} : {A : Type ℓ} → String → Option A → Type ℓ
IsPresent {A = A} value o = is_empty value ≡ false → (a : A) × (o ≡ some a)

abbrev pub IsCents : Option Decimal → Type 0
IsCents o =
    (d : Decimal) → o ≡ some d → (d.exponent ≡ negsuc 1) × (magnitude d.coefficient < 10 ^ 28)

abbrev fit_ok : Decimal → Result Fault Decimal
fit_ok d = ok d

ok_inj : {a b : Decimal} → fit_ok a ≡ fit_ok b → a ≡ b
ok_inj e = cc

ok_err : {a : Decimal} → fit_ok a ≡ err invalid_operation → ⊥
ok_err e = cc

fitting-IsCents :
    (z : ℤ) (d : Decimal)
    → fitting z ≡ ok d
    → (d.coefficient ≡ z) × (d.exponent ≡ negsuc 1) × (magnitude d.coefficient < 10 ^ 28)
unfolding fitting
fitting-IsCents z d h = elim (Bool-cases (ltb (magnitude z) (10 ^ 28))) [
  | inl small ↦
      let same : in_cents z ≡ d = ok_inj (sym (rw small refl) ∙ h) in
      subst
        (λ (y : Decimal).
          (y.coefficient ≡ z) × (y.exponent ≡ negsuc 1) × (magnitude y.coefficient < 10 ^ 28))
        same (refl, refl, ltb→lt (magnitude z) (10 ^ 28) small)
  | inr large ↦ absurd (ok_err (sym h ∙ rw large refl))
]

abbrev pub IsAmount : String → Option Decimal → Type 0
IsAmount value o = IsPresent value o × IsCents o

-- The three amounts, where they are there.
abbrev pub AddsUp : Option Decimal → Option Decimal → Option Decimal → Type 0
AddsUp (some amount) (some fee) (some net) = net.coefficient ≡ amount.coefficient -ℤ fee.coefficient
AddsUp _ _ _ = Unit

-- The contract's field for the status lists it.
abbrev pub IsListed : SettlementContract → String → Type 0
IsListed c status =
    (f : FieldContract) × Declares c "settlement_status" f
    × (is_member status f.allowed_values ≡ true)

abbrev pub IsAllowed : SettlementContract → String → Type 0
IsAllowed c status = is_empty status ≡ false → IsListed c status

module _ (py : Reader) where
  abbrev pub IsFilled : FieldContract → Option String → Type 0
  IsFilled f o = f.required ≡ true → f.nullable ≡ false → is_empty (py.strip (or_empty o)) ≡ false

  Clean-check_value :
      (f : FieldContract) (o : Option String) → Clean Unit (check_value py f o) (λ u. IsFilled f o)
  unfolding check_value is_empty or_empty
  Clean-check_value f none =
      Clean-last (Clean-report_if f.required _ _) λ x u absent required nullable. absurd cc
  Clean-check_value f (some v) =
      Clean-then (Clean-report_if (is_empty (py.strip v) && not f.nullable) _ _)
        λ u. Clean-last (Clean-report_if _ _ _) λ x p short required nullable. ground (arith, p.1)

  abbrev pub AllFilled : Raw → List FieldContract → Type 0
  AllFilled raw = All (λ f. IsFilled f (raw_value (get f.name raw)))

  pub Clean-check_fields :
      (raw : Raw) (fs : List FieldContract)
      → Clean Unit (check_fields py raw fs) (λ u. AllFilled raw fs)
  unfolding check_fields
  Clean-check_fields raw [] = Clean-last (Clean-pure tt) (λ u p e. tt)
  Clean-check_fields raw (f ∷ fs) =
      Clean-then (Clean-check_value f (raw_value (get f.name raw)))
        λ u. Clean-last (Clean-check_fields raw fs) λ v p rest. (p.1, rest)

  Clean-parsed_or :
      (code message value : String) (o : Option String)
      → Clean Unit (parsed_or py code message o) (IsPresent value)
  unfolding parsed_or
  Clean-parsed_or code message value none = Clean-report code message none (IsPresent value)
  Clean-parsed_or code message value (some v) =
      Clean-last (Clean-pure (some v)) λ a u e full. (v, sym e)

  -- Nothing is asked of an empty text.
  nothing_asked :
      {A : Type 0} (value : String)
      → is_empty value ≡ true
      → Clean Unit (pure none) (IsPresent {A = A} value)
  nothing_asked value blank = Clean-last (Clean-pure none) λ a u e full. absurd (ground arith)

  pub Clean-parse_date : (value : String) → Clean Unit (parse_date py value) (IsPresent value)
  unfolding parse_date
  Clean-parse_date value = elim (Bool-cases (is_empty value)) [
    | inl blank ↦ rw blank (nothing_asked value blank)
    | inr full ↦ rw full (Clean-parsed_or _ _ value (py.date_of value))
  ]

  pub Clean-parse_optional_uuid :
      (value : String) → Clean Unit (parse_optional_uuid py value) (IsPresent value)
  unfolding parse_optional_uuid
  Clean-parse_optional_uuid value = elim (Bool-cases (is_empty value)) [
    | inl blank ↦ rw blank (nothing_asked value blank)
    | inr full ↦ rw full (Clean-parsed_or _ _ value (py.uuid_of value))
  ]

  Clean-in_utc :
      (value : String) (o : Option Timestamp) → Clean Unit (in_utc py o) (IsPresent value)
  unfolding in_utc
  Clean-in_utc value none = Clean-report _ _ none (IsPresent value)
  Clean-in_utc value (some naive) = Clean-report _ _ none (IsPresent value)
  Clean-in_utc value (some (aware t)) = Clean-last (Clean-pure (some t)) λ a u e full. (t, sym e)

  pub Clean-parse_timestamp :
      (value : String) → Clean Unit (parse_timestamp py value) (IsPresent value)
  unfolding parse_timestamp
  Clean-parse_timestamp value = elim (Bool-cases (is_empty value)) [
    | inl blank ↦ rw blank (nothing_asked value blank)
    | inr full ↦ rw full (Clean-in_utc value (py.timestamp_of value))
  ]

  exact :
      (z : ℤ) (d : Decimal)
      → fitting z ≡ ok d
      → (d.exponent ≡ negsuc 1) × (magnitude d.coefficient < 10 ^ 28)
  exact z d h = let (c, e, small) = fitting-IsCents z d h in (e, small)

  quantized-IsAmount :
      (value : String) (z : ℤ) → Clean Unit (quantized py (fitting z)) (IsAmount value)
  unfolding quantized
  quantized-IsAmount value z = Clean-then (Clean-answer (fitting z)) λ d.
      Clean-last (Clean-pure (some d)) λ a p e. (
        (λ full. (d, sym e)),
        λ x at.
            subst (λ y. (y.exponent ≡ negsuc 1) × (magnitude y.coefficient < 10 ^ 28))
              (some_inj (e ∙ at)) (exact z d p.1),
      )

  Clean-within :
      (value : String) (f : FieldContract) (name : String) (o : Option Parsed)
      → Clean Unit (within py f name o) (IsAmount value)
  unfolding within quantize
  Clean-within value f name none = Clean-report _ _ none (IsAmount value)
  Clean-within value f name (some not_finite) = Clean-report _ _ none (IsAmount value)
  Clean-within value f name (some (finite negative c e)) =
      elim (Bool-cases (above f.scale (scale_of e))) [
        | inl fine ↦ rw fine (Clean-report _ _ none (IsAmount value))
        | inr scaled ↦ rw scaled (elim (Bool-cases (above f.precision (precision_of c e))) [
          | inl long ↦ rw long (Clean-report _ _ none (IsAmount value))
          | inr short ↦ rw short (quantized-IsAmount value _)
        ])
      ]

  pub Clean-parse_decimal :
      (value : String) (f : FieldContract) (name : String)
      → Clean Unit (parse_decimal py value f name) (IsAmount value)
  unfolding parse_decimal
  Clean-parse_decimal value f name = elim (Bool-cases (is_empty value)) [
    | inl blank ↦
        rw blank (
          Clean-last (Clean-pure none)
            λ a u e. ((λ full. absurd (ground arith)), λ d at. absurd cc))
    | inr full ↦ rw full (Clean-within value f name (py.decimal_of value))
  ]

  pub Clean-check_date :
      (d : Option String) (expected : String)
      → Clean Unit (check_date py d expected) (λ u. (v : String) → d ≡ some v → v ≡ expected)
  unfolding check_date
  Clean-check_date none expected = Clean-last (Clean-pure tt) λ u p e v at. absurd cc
  Clean-check_date (some d) expected =
      Clean-last (Clean-report_if _ _ _) λ u p same v at. ground (arith, eq_iff d expected)

  pub Clean-check_partner :
      (filename : FilenameMetadata) (id : String)
      → Clean Unit
          (check_partner py filename id)
          (λ u. is_empty id ≡ false → id ≡ filename.partner_id)
  unfolding check_partner is_empty
  Clean-check_partner filename id =
      Clean-last (Clean-report_if _ _ _)
        λ u p same full. ground (arith, eq_iff id filename.partner_id)

  pub Clean-check_amount :
      (o : Option Decimal)
      → Clean Unit
          (check_amount py o)
          (λ u. (d : Decimal) → o ≡ some d → is_positive d.coefficient ≡ true)
  unfolding check_amount
  Clean-check_amount none = Clean-last (Clean-pure tt) λ u p e d at. absurd cc
  Clean-check_amount (some x) = Clean-last (Clean-report_if _ _ _) λ u p same d at.
      subst (λ (y : Decimal). is_positive y.coefficient ≡ true) (some_inj at) (ground arith)

  pub Clean-check_fee :
      (o : Option Decimal)
      → Clean Unit
          (check_fee py o)
          (λ u. (d : Decimal) → o ≡ some d → is_negative d.coefficient ≡ false)
  unfolding check_fee
  Clean-check_fee none = Clean-last (Clean-pure tt) λ u p e d at. absurd cc
  Clean-check_fee (some x) =
      Clean-last (Clean-report_if _ _ _) λ u p same d at.
        subst (λ (y : Decimal). is_negative y.coefficient ≡ false) (some_inj at) same

  is_true : (b : Bool) → not b ≡ false → b ≡ true
  is_true b h = ground arith

  pub Clean-check_net :
      (amount fee net : Option Decimal)
      → Clean Unit (check_net py amount fee net) (λ u. AddsUp amount fee net)
  unfolding check_net
  Clean-check_net (some amount) (some fee) (some net) =
      Clean-then (Clean-answer (fitting (amount.coefficient -ℤ fee.coefficient))) λ expected.
        Clean-last (Clean-report_if _ _ _) λ u p same.
          let (c, e, small) =
            fitting-IsCents (amount.coefficient -ℤ fee.coefficient) expected p.1 in
          eq_int→eq net.coefficient expected.coefficient (is_true _ same) ∙ c
  Clean-check_net none fee net = Clean-last (Clean-pure tt) λ u p e. tt
  Clean-check_net (some amount) none net = Clean-last (Clean-pure tt) λ u p e. tt
  Clean-check_net (some amount) (some fee) none = Clean-last (Clean-pure tt) λ u p e. tt

  pub Clean-check_pattern :
      (c : SettlementContract) (name value code message : String)
      → Clean Unit (check_pattern py c name value code message) (λ u. Unit)
  unfolding check_pattern
  Clean-check_pattern c name value code message = elim (Bool-cases (is_empty value)) [
    | inl blank ↦ rw blank (Clean-last (Clean-pure tt) λ u p e. tt)
    | inr full ↦
        rw full
          (Clean-then (Clean-field c name) λ f. Clean-last (Clean-report_if _ _ _) λ u p e. tt)
  ]

  pub Clean-check_status :
      (c : SettlementContract) (status : String)
      → Clean Unit (check_status py c status) (λ u. IsAllowed c status)
  unfolding check_status
  Clean-check_status c status = elim (Bool-cases (is_empty status)) [
    | inl blank ↦ rw blank (Clean-last (Clean-pure tt) λ u p e full. absurd (ground arith))
    | inr full ↦ rw full (
        Clean-then (Clean-field c "settlement_status")
          λ f. Clean-last (Clean-report_if _ _ _) λ u p e filled. (f, p.1, is_true _ e))
  ]

  unless_keeps :
      (o : Option SettlementRecord) (s : List ValidationIssue)
      → (unless_issues py o s).1 ≡ []
      → s ≡ []
  unfolding unless_issues
  unless_keeps o [] e = refl
  unless_keeps o (i ∷ s) e = e

  value_of : {A : Type 0} {a b : A} → returned_with a [] ≡ returned_with b [] → a ≡ b
  value_of e = cc

  pub Clean-unless_issues :
      {P : Type 0} {R : Option SettlementRecord → Type 0} (o : Option SettlementRecord)
      → (P → R o)
      → Clean P (unless_issues py o) R
  unfolding unless_issues
  Clean-unless_issues {R = R} o h = record {
    keeps = unless_keeps o;
    gives = λ a p e. subst R (value_of e) (h p);
  }
