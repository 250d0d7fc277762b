-- ===== src/Settlement/Validation/Rows.antt =====
-- A row that is accepted, and that a row without issues is accepted.
use Prim.Native.Nat.{◌^◌}
use fintech_payments_data_pl.Prelude.{
  ℕ, ◌<◌, String, ◌≡◌, refl, Bool, true, false, ◌||◌, Option, none, some, Bool-cases, inl, inr,
  arith,
}
use fintech_payments_data_pl.Prelude.Int.{negsuc, magnitude, ◌-ℤ◌, is_positive, is_negative}
use fintech_payments_data_pl.Settlement.Models.{SettlementRecord, FilenameMetadata, Decimal}
use fintech_payments_data_pl.Settlement.Contracts.{SettlementContract}
use fintech_payments_data_pl.Settlement.Validation.{
  Reader, Raw, text, is_empty, record_of, validate_row,
}
use fintech_payments_data_pl.Settlement.Validation.Clean.{Clean, Clean-then}
use fintech_payments_data_pl.Settlement.Validation.Facts.{
  Clean-check_fields, Clean-check_pattern, Clean-check_partner, Clean-parse_date, Clean-check_date,
  Clean-parse_optional_uuid, Clean-parse_timestamp, Clean-field, Clean-parse_decimal,
  Clean-check_amount, Clean-check_status, Clean-check_fee, Clean-check_net, Clean-unless_issues,
  IsPresent, IsAmount, AddsUp, IsListed, IsAllowed, AllFilled,
}

module _ (py : Reader) (c : SettlementContract) (filename : FilenameMetadata) (row : ℕ)
    (raw : Raw) where
  -- An amount in whole cents, with at most 28 digits.
  abbrev pub InCents : Decimal → Type 0
  InCents d = (d.exponent ≡ negsuc 1) × (magnitude d.coefficient < 10 ^ 28)

  pub record Accepted (r : SettlementRecord) : Type 0 where
    pub source_row_number : r.source_row_number ≡ row
    pub partner_id : r.partner_id ≡ filename.partner_id
    pub settlement_date : r.settlement_date ≡ filename.settlement_date
    pub reference : r.settlement_reference ≡ text py raw "settlement_reference"
    pub has_reference : is_empty r.settlement_reference ≡ false
    pub has_partner_reference : is_empty r.partner_transaction_reference ≡ false
    pub has_currency : is_empty r.currency ≡ false
    pub has_status : is_empty r.settlement_status ≡ false
    pub status : IsListed c r.settlement_status
    pub amount : InCents r.amount
    pub fee_amount : InCents r.fee_amount
    pub net_amount : InCents r.net_amount
    pub amount_positive : is_positive r.amount.coefficient ≡ true
    pub fee_not_negative : is_negative r.fee_amount.coefficient ≡ false
    pub adds_up : r.net_amount.coefficient ≡ r.amount.coefficient -ℤ r.fee_amount.coefficient

  -- The texts of the required fields are there.
  abbrev pub Complete : Type 0
  Complete =
      (is_empty (text py raw "partner_id") ≡ false)
      × (is_empty (text py raw "settlement_date") ≡ false)
      × (is_empty (text py raw "settlement_reference") ≡ false)
      × (is_empty (text py raw "partner_transaction_reference") ≡ false)
      × (is_empty (text py raw "transaction_timestamp") ≡ false)
      × (is_empty (text py raw "amount") ≡ false)
      × (is_empty (text py raw "currency") ≡ false)
      × (is_empty (text py raw "settlement_status") ≡ false)
      × (is_empty (text py raw "fee_amount") ≡ false)
      × (is_empty (text py raw "net_amount") ≡ false)

  -- What the checks have found of the values.
  record Found (date uuid timestamp : Option String) (amount fee net : Option Decimal)
      : Type 0 where
    pub filled : AllFilled py raw c.fields
    pub partner :
        is_empty (text py raw "partner_id") ≡ false → text py raw "partner_id" ≡ filename.partner_id
    pub has_date : IsPresent (text py raw "settlement_date") date
    pub dated : (v : String) → date ≡ some v → v ≡ filename.settlement_date
    pub has_timestamp : IsPresent (text py raw "transaction_timestamp") timestamp
    pub has_amount : IsAmount (text py raw "amount") amount
    pub positive : (d : Decimal) → amount ≡ some d → is_positive d.coefficient ≡ true
    pub status : IsAllowed c (text py raw "settlement_status")
    pub has_fee : IsAmount (text py raw "fee_amount") fee
    pub not_negative : (d : Decimal) → fee ≡ some d → is_negative d.coefficient ≡ false
    pub has_net : IsAmount (text py raw "net_amount") net
    pub adds_up : AddsUp amount fee net

  abbrev pub Judged : (Type 0) → Option SettlementRecord → Type 0
  Judged strict none = strict → ⊥
  Judged strict (some r) = Accepted r

  -- One of the required texts is empty.
  abbrev is_incomplete : Bool
  is_incomplete =
      is_empty (text py raw "partner_id")
      || is_empty (text py raw "settlement_reference")
      || is_empty (text py raw "partner_transaction_reference")
      || is_empty (text py raw "currency")
      || is_empty (text py raw "settlement_status")

  absent : {A : Type 0} {a : A} → none ≡ some a → ⊥
  absent e = cc

  filled_in-Accepted :
      (date : String) (uuid : Option String) (timestamp : String) (amount fee net : Decimal)
      → Found (some date) uuid (some timestamp) (some amount) (some fee) (some net)
      → is_incomplete ≡ false
      → Accepted (record {
        partner_id = text py raw "partner_id";
        settlement_date = date;
        settlement_reference = text py raw "settlement_reference";
        partner_transaction_reference = text py raw "partner_transaction_reference";
        internal_transaction_id = uuid;
        transaction_timestamp = timestamp;
        amount = amount;
        currency = text py raw "currency";
        settlement_status = text py raw "settlement_status";
        fee_amount = fee;
        net_amount = net;
        source_row_number = row;
      })
  filled_in-Accepted date uuid timestamp amount fee net f full = record {
    source_row_number = refl;
    partner_id = f.partner (ground arith);
    settlement_date = f.dated date refl;
    reference = refl;
    has_reference = ground arith;
    has_partner_reference = ground arith;
    has_currency = ground arith;
    has_status = ground arith;
    status = f.status (ground arith);
    amount = f.has_amount.1 amount refl;
    fee_amount = f.has_fee.1 fee refl;
    net_amount = f.has_net.1 net refl;
    amount_positive = f.positive amount refl;
    fee_not_negative = f.not_negative fee refl;
    adds_up = f.adds_up;
  }

  record_of-Judged :
      (date uuid timestamp : Option String) (amount fee net : Option Decimal)
      → Found date uuid timestamp amount fee net
      → Judged Complete (record_of py raw row date uuid timestamp amount fee net)
  unfolding record_of
  record_of-Judged none uuid timestamp amount fee net f = λ k. absent (f.has_date k.1).1
  record_of-Judged (some d) uuid none amount fee net f = λ k. absent (f.has_timestamp k.4).1
  record_of-Judged (some d) uuid (some t) none fee net f = λ k. absent (f.has_amount.0 k.5).1
  record_of-Judged (some d) uuid (some t) (some a) none net f = λ k. absent (f.has_fee.0 k.8).1
  record_of-Judged (some d) uuid (some t) (some a) (some x) none f = λ k. absent (f.has_net.0 k.9).1
  record_of-Judged (some d) uuid (some t) (some a) (some x) (some n) f =
      elim (Bool-cases (is_incomplete)) [
        | inl blank ↦ rw blank (λ k. ground (arith, k.0, k.2, k.3, k.6, k.7))
        | inr full ↦ rw full (filled_in-Accepted d uuid t a x n f full)
      ]

  pub Clean-validate_row :
      Clean Unit
        (validate_row py c filename row raw)
        (λ o. AllFilled py raw c.fields × Judged Complete o)
  unfolding validate_row
  Clean-validate_row = Clean-then (Clean-check_fields py raw c.fields) λ u1.
      Clean-then (Clean-check_pattern py c _ _ _ _) λ u2.
        Clean-then (Clean-check_partner py filename (text py raw "partner_id")) λ u3.
          Clean-then (Clean-parse_date py (text py raw "settlement_date")) λ date.
            Clean-then (Clean-check_date py date filename.settlement_date) λ u4.
              Clean-then (Clean-parse_optional_uuid py (text py raw "internal_transaction_id"))
                λ uuid.
                  Clean-then (Clean-parse_timestamp py (text py raw "transaction_timestamp"))
                    λ timestamp. Clean-then (Clean-field c "amount") λ amount_field.
                      Clean-then
                        (Clean-parse_decimal py (text py raw "amount") amount_field "amount")
                        λ amount. Clean-then (Clean-check_amount py amount) λ u5.
                          Clean-then (Clean-check_pattern py c _ _ _ _) λ u6.
                            Clean-then (Clean-check_status py c (text py raw "settlement_status"))
                              λ u7. Clean-then (Clean-field c "fee_amount") λ fee_field.
                                Clean-then
                                  (Clean-parse_decimal py (text py raw "fee_amount") fee_field
                                    "fee_amount")
                                  λ fee. Clean-then (Clean-check_fee py fee) λ u8.
                                    Clean-then (Clean-field c "net_amount") λ net_field.
                                      Clean-then
                                        (Clean-parse_decimal py (text py raw "net_amount") net_field
                                          "net_amount")
                                        λ net. Clean-then (Clean-check_net py amount fee net) λ u9.
                                          Clean-unless_issues py
                                            (record_of py raw row date uuid timestamp amount fee
                                              net)
                                            λ p.
                                              let (
                                                (
                                                  (
                                                    (
                                                      (
                                                        (
                                                          (
                                                            (
                                                            (
                                                            (
                                                            (
                                                            (
                                                            (
                                                            (
                                                            (
                                                            (((u, filled), u10), partner),
                                                            has_date,
                                                            ),
                                                            dated,
                                                            ),
                                                            has_uuid,
                                                            ),
                                                            has_timestamp,
                                                            ),
                                                            f1,
                                                            ),
                                                            has_amount,
                                                            ),
                                                            positive,
                                                            ),
                                                            u11,
                                                            ),
                                                            status,
                                                          ),
                                                          f2,
                                                        ),
                                                        has_fee,
                                                      ),
                                                      not_negative,
                                                    ),
                                                    f3,
                                                  ),
                                                  has_net,
                                                ),
                                                adds_up,
                                              ) =
                                                p in
                                              (
                                                filled,
                                                record_of-Judged date uuid timestamp amount fee net
                                                    (record {
                                                      filled = filled;
                                                      partner = partner;
                                                      has_date = has_date;
                                                      dated = dated;
                                                      has_timestamp = has_timestamp;
                                                      has_amount = has_amount;
                                                      positive = positive;
                                                      status = status;
                                                      has_fee = has_fee;
                                                      not_negative = not_negative;
                                                      has_net = has_net;
                                                      adds_up = adds_up;
                                                    }),
                                              )
