-- ===== src/Silver/References/Laws.antt =====
-- What the classification of references reports.
use fintech_payments_data_pl.Prelude.{
  ℕ, String, ◌≡◌, refl, sym, ◌∙◌, subst, some_inj, Bool, true, false, Option, none, some, List, [],
  ◌∷◌, All, Any, inl, inr, ◌⊎◌, if◌then◌else◌,
}
use fintech_payments_data_pl.Prelude.Dict.{Dict}
use fintech_payments_data_pl.Silver.Models.{NormalizedCdcEvent, UnresolvedReference}
use fintech_payments_data_pl.Silver.References.{
  Rule, reference_rules, field_value, is_known, unresolved_reference, classify_rule, classify_rules,
  classify_unresolved_references,
}

absent_found : {o : Option String} {a : String} → o ≡ none → o ≡ some a → ⊥
absent_found h k = cc

module _ (event : NormalizedCdcEvent) (row : Dict String (Option String))
    (known_keys : Dict String (List String)) where
  -- A rule whose field has a value that is not a known key of the entity it refers to.
  abbrev pub Unresolved : Rule → String → Type 0
  Unresolved rule value =
      (field_value rule.0 row ≡ some value) × (is_known value rule.1 known_keys ≡ false)

  -- A reference that stands for such a rule.
  abbrev pub Reports : UnresolvedReference → Rule → Type 0
  Reports u rule =
      (u.reference_field ≡ rule.0)
      × (u.reference_entity ≡ rule.1)
      × (u.source_event_id ≡ event.event_id)
      × Unresolved rule u.reference_key

  -- A rule that has nothing to report, or whose reference is in the list.
  abbrev pub Settles : List UnresolvedReference → Rule → Type 0
  Settles us rule =
      ((value : String)
        → field_value rule.0 row ≡ some value
        → is_known value rule.1 known_keys ≡ true)
      ⊎ Any (λ u. Reports u rule) us

  -- The list reports only unresolved rules of the entity, and leaves none out.
  abbrev pub Unresolveds : List UnresolvedReference → Type 0
  Unresolveds us =
      All (λ u. Any (Reports u) (reference_rules event.entity_name)) us
      × All (Settles us) (reference_rules event.entity_name)

  wider :
      (us : List UnresolvedReference) (rule : Rule) (rules : List Rule)
      → All (λ u. Any (Reports u) rules) us
      → All (λ u. Any (Reports u) (rule ∷ rules)) us
  wider [] rule rules h = tt
  wider (u ∷ us) rule rules h = (inr h.0, wider us rule rules h.1)

  longer :
      (u : UnresolvedReference) (us : List UnresolvedReference) (rules : List Rule)
      → All (Settles us) rules
      → All (Settles (u ∷ us)) rules
  longer u us [] h = tt
  longer u us (rule ∷ rules) h =
      (elim h.0 [ inl nothing ↦ inl nothing | inr there ↦ inr (inr there) ], longer u us rules h.1)

  new_Reports :
      (observed_at : ℕ) (rule : Rule) (value : String)
      → Unresolved rule value
      → Reports (unresolved_reference event rule value observed_at) rule
  unfolding unresolved_reference
  new_Reports observed_at (field, target) value h = (refl, refl, refl, h)

  found_same : {o : Option String} {a b : String} → o ≡ some a → o ≡ some b → a ≡ b
  found_same h k = some_inj (sym h ∙ k)

  -- Both halves, for a list of references and a list of rules.
  abbrev Both : List UnresolvedReference → List Rule → Type 0
  Both us rules = All (λ u. Any (Reports u) rules) us × All (Settles us) rules

  known-Both :
      (observed_at : ℕ) (rule : Rule) (value : String) (b : Bool) (us : List UnresolvedReference)
      (rules : List Rule)
      → field_value rule.0 row ≡ some value
      → is_known value rule.1 known_keys ≡ b
      → Both us rules
      → Both
          (if b then us else unresolved_reference event rule value observed_at ∷ us)
          (rule ∷ rules)
  known-Both observed_at rule value true us rules found known (sound, complete) = (
    wider us rule rules sound,
    (
      inl (λ v h. subst (λ x. is_known x rule.1 known_keys ≡ true) (found_same found h) known),
      complete,
    ),
  )
  known-Both observed_at rule value false us rules found unknown (sound, complete) =
      let reports = new_Reports observed_at rule value (found, unknown) in
      (
        (inl reports, wider us rule rules sound),
        (
          inr (inl reports),
          longer (unresolved_reference event rule value observed_at) us rules complete,
        ),
      )

  rule-Both :
      (observed_at : ℕ) (rule : Rule) (o : Option String) (us : List UnresolvedReference)
      (rules : List Rule)
      → field_value rule.0 row ≡ o
      → Both us rules
      → Both (classify_rule event row known_keys observed_at rule o us) (rule ∷ rules)
  unfolding classify_rule
  rule-Both observed_at rule none us rules missing (sound, complete) =
      (wider us rule rules sound, (inl (λ v h. absurd (absent_found missing h)), complete))
  rule-Both observed_at rule (some value) us rules found both =
      known-Both observed_at rule value (is_known value rule.1 known_keys) us rules found refl both

  rules-Both :
      (observed_at : ℕ) (rules : List Rule)
      → Both (classify_rules event row known_keys observed_at rules) rules
  unfolding classify_rules
  rules-Both observed_at [] = (tt, tt)
  rules-Both observed_at (rule ∷ rules) =
      rule-Both observed_at rule (field_value rule.0 row) _ rules refl
        (rules-Both observed_at rules)

  -- Each reference that is reported stands for a rule of the event's entity whose field has a value
  -- that is not a known key; and each rule of the entity is reported unless its field has no value
  -- or a known one.
  pub classify_unresolved_references-Unresolveds :
      (observed_at : ℕ)
      → Unresolveds (classify_unresolved_references event row known_keys observed_at)
  unfolding classify_unresolved_references
  classify_unresolved_references-Unresolveds observed_at =
      rules-Both observed_at (reference_rules event.entity_name)
