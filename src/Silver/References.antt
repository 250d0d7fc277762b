-- ===== src/Silver/References.antt =====
-- src/processing/silver/references.py: references of a state row to keys that are not known yet. A
-- value of the row is its `str`, `None` is `none`.
pub mod Laws
use fintech_payments_data_pl.Prelude.{
  ℕ, String, ◌≡◌, Bool, true, false, ◌||◌, Option, none, some, List, [], ◌∷◌, str_eq, eq_iff,
  if◌then◌else◌,
}
use fintech_payments_data_pl.Prelude.Dict.{Dict, Eq, get}
use fintech_payments_data_pl.Silver.Models.{NormalizedCdcEvent, UnresolvedReference}

instance abbrev pub name_Eq : Eq String
name_Eq = record { beq = str_eq; beq_iff = eq_iff }

-- A field and the entity that it refers to.
abbrev pub Rule : Type 0
Rule = String × String

-- `REFERENCE_RULES.get(entity, ())`
unfoldable pub reference_rules : String → List Rule
reference_rules entity =
    if str_eq entity "accounts"
    then ("customer_id", "customers") ∷ []
    else if str_eq entity "payment_transactions"
    then ("customer_id", "customers")
      ∷ ("account_id", "accounts")
      ∷ ("merchant_id", "merchants")
      ∷ []
    else if str_eq entity "refunds"
    then ("transaction_id", "payment_transactions") ∷ []
    else []

-- `state_row.get(field)`, where `None` and the empty text are left out
nonempty : Option (Option String) → Option String
nonempty (some (some value)) = if str_eq value "" then none else some value
nonempty _ = none

unfoldable pub field_value : String → Dict String (Option String) → Option String
unfolding nonempty
field_value field row = nonempty (get field row)

unfoldable pub contains : String → List String → Bool
contains value [] = false
contains value (k ∷ ks) = str_eq k value || contains value ks

or_none_known : Option (List String) → List String
or_none_known none = []
or_none_known (some ks) = ks

-- `value in known_keys.get(target, set())`
unfoldable pub is_known : String → String → Dict String (List String) → Bool
unfolding or_none_known
is_known value target known_keys = contains value (or_none_known (get target known_keys))

unfoldable pub unresolved_reference : NormalizedCdcEvent → Rule → String → ℕ → UnresolvedReference
unresolved_reference event (field, target) value observed_at = record {
  entity_name = event.entity_name;
  business_key = event.business_key;
  reference_entity = target;
  reference_key = value;
  reference_field = field;
  classification = "TEMPORARILY_UNRESOLVED";
  source_event_id = event.event_id;
  processing_run_id = event.processing_run_id;
  observed_at = observed_at;
}

module _ (event : NormalizedCdcEvent) (row : Dict String (Option String))
    (known_keys : Dict String (List String)) (observed_at : ℕ) where
  -- One turn of the loop in front of the rest.
  unfoldable pub classify_rule :
      Rule → Option String → List UnresolvedReference → List UnresolvedReference
  classify_rule rule none rest = rest
  classify_rule rule (some value) rest =
      if is_known value rule.1 known_keys
      then rest
      else unresolved_reference event rule value observed_at ∷ rest

  unfoldable pub classify_rules : List Rule → List UnresolvedReference
  classify_rules [] = []
  classify_rules (rule ∷ rules) = classify_rule rule (field_value rule.0 row) (classify_rules rules)

  unfoldable pub classify_unresolved_references : List UnresolvedReference
  classify_unresolved_references = classify_rules (reference_rules event.entity_name)
