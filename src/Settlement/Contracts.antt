-- ===== src/Settlement/Contracts.antt =====
-- src/ingestion/batch/contracts.py: the settlement file contract that the validation reads.
use fintech_payments_data_pl.Prelude.{
  ℕ, String, Bool, Option, List, [], ◌∷◌, map, Exec, pure, raise, str_eq, if◌then◌else◌,
}

pub record FieldContract : Type 0 where
  pub name : String
  pub data_type : String
  pub required : Bool
  pub nullable : Bool
  pub precision : Option ℕ
  pub scale : Option ℕ
  pub pattern : Option String
  pub max_length : Option ℕ
  pub allowed_values : List String
  pub timezone_required : Bool

pub record SettlementContract : Type 0 where
  pub name : String
  pub schema_version : String
  pub contract_version : String
  pub owner : String
  pub source_owner : String
  pub classification : String
  pub encoding : String
  pub delimiter : String
  pub naming_convention : String
  pub naming_pattern : String
  pub timestamp_convention : String
  pub business_key : List String
  pub fields : List FieldContract

-- What a validation raises: `InvalidOperation` of `quantize` and `ContractError`.
pub data Fault : Type 0 where
  invalid_operation : Fault
  contract_error : String → String → Fault

abbrev pub required_settlement_fields : List String
required_settlement_fields =
    "partner_id" ∷ "settlement_date" ∷ "settlement_reference" ∷ "partner_transaction_reference"
    ∷ "internal_transaction_id" ∷ "transaction_timestamp" ∷ "amount" ∷ "currency"
    ∷ "settlement_status" ∷ "fee_amount" ∷ "net_amount" ∷ []

unfoldable pub field_names : SettlementContract → List String
field_names c = map (λ (f : FieldContract). f.name) c.fields

module _ {S : Type 0} where
  unfoldable pub field_of : String → String → List FieldContract → Exec Fault S FieldContract
  field_of version name [] = raise (contract_error version name)
  field_of version name (f ∷ fs) =
      let rest = field_of version name fs in if str_eq f.name name then pure f else rest

  unfoldable pub field : SettlementContract → String → Exec Fault S FieldContract
  unfolding field_of
  field c name = field_of c.schema_version name c.fields
