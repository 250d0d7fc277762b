-- ===== src/Settlement/Files/Laws.antt =====
-- What the validation of a settlement file returns: every row is accepted or rejected, and what the
-- accepted ones satisfy.
use mathlib.Core.List.{◌++◌ as ◌+++◌}
use fintech_payments_data_pl.Prelude.{
  ℕ, ◌+◌, String, ◌≡◌, refl, sym, subst, Bool, true, false, Option, none, some, List, [], ◌∷◌, map,
  All, Any, Result, ok, err, Bool-cases, inl, inr, arith, if◌then◌else◌,
}
use fintech_payments_data_pl.Prelude.Dict.{get}
use fintech_payments_data_pl.Storage.{text_Eq}
use fintech_payments_data_pl.Settlement.Models.{
  FilenameMetadata, SettlementRecord, ValidationIssue, RejectedRecord,
}
use fintech_payments_data_pl.Settlement.Contracts.{FieldContract, SettlementContract, Fault}
use fintech_payments_data_pl.Settlement.Validation.{
  Reader, Raw, validate_row, text, raw_value, or_empty, is_empty, is_member,
}
use fintech_payments_data_pl.Settlement.Validation.Facts.{AllFilled}
use fintech_payments_data_pl.Settlement.Validation.Rows.{Accepted, Complete, Clean-validate_row}
use fintech_payments_data_pl.Settlement.Files.{
  Source, Sorted, raw_record, fingerprint, is_seen, duplicate_issues, rejection, placed, then_place,
  add_reference, validate_rows,
}

-- The third list is the other two, merged.
pub data Merges : List ℕ → List ℕ → List ℕ → Type 0 where
  finished : Merges [] [] []
  from_left : (n : ℕ) {xs ys zs : List ℕ} → Merges xs ys zs → Merges (n ∷ xs) ys (n ∷ zs)
  from_right : (n : ℕ) {xs ys zs : List ℕ} → Merges xs ys zs → Merges xs (n ∷ ys) (n ∷ zs)

-- The numbers of the rows, of which the first is `n`.
abbrev pub numbered : {A : Type 0} → ℕ → List A → List ℕ
numbered n [] = []
numbered n (x ∷ xs) = n ∷ numbered (n + 1) xs

-- The contract has the field, required and not nullable.
abbrev pub Demands : List FieldContract → String → Type 0
Demands fields name =
    Any (λ (f : FieldContract). (f.name ≡ name) × (f.required ≡ true) × (f.nullable ≡ false)) fields

-- Every field but `internal_transaction_id` is required and not nullable.
abbrev pub IsStrict : SettlementContract → Type 0
IsStrict c =
    Demands c.fields "partner_id"
    × Demands c.fields "settlement_date"
    × Demands c.fields "settlement_reference"
    × Demands c.fields "partner_transaction_reference"
    × Demands c.fields "transaction_timestamp"
    × Demands c.fields "amount"
    × Demands c.fields "currency"
    × Demands c.fields "settlement_status"
    × Demands c.fields "fee_amount"
    × Demands c.fields "net_amount"

-- No text of the list comes twice or is among the ones seen before.
abbrev pub Fresh : List String → List String → Type 0
Fresh seen [] = Unit
Fresh seen (x ∷ xs) = (is_member x seen ≡ false) × Fresh (x ∷ seen) xs

clash : {b : Bool} → b ≡ true → b ≡ false → ⊥
clash h k = cc

added :
    (seen more : List String) (x : String)
    → ((y : String) → is_member y seen ≡ true → is_member y more ≡ true)
    → (y : String) → is_member y (x ∷ seen) ≡ true
    → is_member y (x ∷ more) ≡ true
unfolding is_member
added seen more x sub y h = ground (arith, sub y)

Fresh-fewer :
    (seen more xs : List String)
    → ((y : String) → is_member y seen ≡ true → is_member y more ≡ true)
    → Fresh more xs
    → Fresh seen xs
Fresh-fewer seen more [] sub h = tt
Fresh-fewer seen more (x ∷ xs) sub h = (
  elim (Bool-cases (is_member x seen)) [
    | inl known ↦ absurd (clash (sub x known) h.0)
    | inr new ↦ new
  ],
  Fresh-fewer (x ∷ seen) (x ∷ more) xs (added seen more x sub) h.1,
)

module _ (py : Reader) where
  demanded :
      (raw : Raw) (name : String) (fs : List FieldContract)
      → Demands fs name
      → AllFilled py raw fs
      → is_empty (text py raw name) ≡ false
  unfolding text
  demanded raw name [] d h = absurd d
  demanded raw name (f ∷ fs) (inl (same, required, nullable)) h =
      subst (λ n. is_empty (py.strip (or_empty (raw_value (get n raw)))) ≡ false) same
        (h.0 required nullable)
  demanded raw name (f ∷ fs) (inr later) h = demanded raw name fs later h.1

abbrev pub right : {A : Type 0} → A → Result Fault A
right a = ok a

pub value_of : {A : Type 0} {a b : A} → right a ≡ right b → a ≡ b
value_of e = cc

module _ (py : Reader) (c : SettlementContract) (filename : FilenameMetadata)
    (source : Source) where
  -- What an accepted record satisfies, of some row of the file.
  abbrev pub IsSound : SettlementRecord → Type 0
  IsSound r = (row : ℕ) × (raw : Raw) × Accepted py c filename row raw r

  abbrev pub accepted_rows : Sorted → List ℕ
  accepted_rows s = map (λ (r : SettlementRecord). r.source_row_number) s.accepted

  abbrev pub rejected_rows : Sorted → List ℕ
  rejected_rows s = map (λ (r : RejectedRecord). r.source_row_number) s.rejected

  abbrev pub references : Sorted → List String
  references s = map (λ (r : SettlementRecord). r.settlement_reference) s.accepted

  pub record Validates (row : ℕ) (seen : List String) (rows : List Raw) (s : Sorted) : Type 0 where
    pub complete : IsStrict c → Merges (accepted_rows s) (rejected_rows s) (numbered row rows)
    pub sound : All IsSound s.accepted
    pub fresh : Fresh seen (references s)

  strict-Complete :
      (raw : Raw) → IsStrict c → AllFilled py raw c.fields → Complete py c filename 0 raw
  strict-Complete raw d h = (
    demanded py raw "partner_id" c.fields d.0 h,
    demanded py raw "settlement_date" c.fields d.1 h,
    demanded py raw "settlement_reference" c.fields d.2 h,
    demanded py raw "partner_transaction_reference" c.fields d.3 h,
    demanded py raw "transaction_timestamp" c.fields d.4 h,
    demanded py raw "amount" c.fields d.5 h,
    demanded py raw "currency" c.fields d.6 h,
    demanded py raw "settlement_status" c.fields d.7 h,
    demanded py raw "fee_amount" c.fields d.8 h,
    demanded py raw "net_amount" c.fields d.9 h,
  )

  -- The references seen before stay seen.
  grown_references :
      (reference : String) (seen : List String) (y : String)
      → is_member y seen ≡ true
      → is_member y (add_reference py c filename source reference seen) ≡ true
  unfolding add_reference is_member
  grown_references reference seen y h = ground arith

  module _ (row : ℕ) (seen : List String) (raw row_text : Raw) (rows : List Raw) (s : Sorted)
      (v : Validates
        (row + 1)
        (add_reference py c filename source (text py raw "settlement_reference") seen)
        rows
        s) where
    rest-Fresh : Fresh seen (references s)
    rest-Fresh =
        Fresh-fewer seen
          (add_reference py c filename source (text py raw "settlement_reference") seen)
          (references s) (grown_references (text py raw "settlement_reference") seen) v.fresh

    rejected-Validates :
        (r : RejectedRecord)
        → r.source_row_number ≡ row
        → Validates row seen (row_text ∷ rows) (record s { rejected = r ∷ s.rejected })
    rejected-Validates r at = record {
      complete = λ strict.
          subst
            (λ n. Merges (accepted_rows s) (n ∷ rejected_rows s) (numbered row (row_text ∷ rows)))
            (sym at) (from_right row (v.complete strict));
      sound = v.sound;
      fresh = rest-Fresh;
    }

    accepted-Validates :
        (r : SettlementRecord)
        → Accepted py c filename row raw r
        → is_member (text py raw "settlement_reference") seen ≡ false
        → Validates row seen (row_text ∷ rows) (record s { accepted = r ∷ s.accepted })
    unfolding add_reference
    accepted-Validates r acc new = record {
      complete = λ strict.
          subst
            (λ n. Merges (n ∷ accepted_rows s) (rejected_rows s) (numbered row (row_text ∷ rows)))
            (sym acc.source_row_number) (from_left row (v.complete strict));
      sound = ((row, raw, acc), v.sound);
      fresh = (
        subst (λ t. is_member t seen ≡ false) (sym acc.reference) new,
        subst (λ t. Fresh (t ∷ seen) (references s)) (sym acc.reference)
            (subst
              (λ b.
                Fresh (if b then seen else text py raw "settlement_reference" ∷ seen)
                  (references s))
              (subst (λ t. is_empty t ≡ false) acc.reference acc.has_reference) v.fresh),
      );
    }

    placed-Validates :
        (duplicate known : Bool) (issues : List ValidationIssue) (o : Option SettlementRecord)
        → is_member (text py raw "settlement_reference") seen ≡ known
        → validate_row py c filename row raw [] ≡ (ok o, issues)
        → Validates row seen (row_text ∷ rows) (
            placed py c filename source row raw
              (duplicate_issues py c filename source duplicate known +++ issues)
              o
              s)
    unfolding placed rejection duplicate_issues
    placed-Validates true known issues o new e = rejected-Validates _ refl
    placed-Validates false true issues o new e = rejected-Validates _ refl
    placed-Validates false false (i ∷ issues) o new e = rejected-Validates _ refl
    placed-Validates false false [] (some r) new e =
        accepted-Validates r ((Clean-validate_row py c filename row raw).gives (some r) tt e).1 new
    placed-Validates false false [] none new e = record {
      complete = λ strict.
          let (filled, lost) = (Clean-validate_row py c filename row raw).gives none tt e in
          absurd (lost (strict-Complete raw strict filled));
      sound = v.sound;
      fresh = rest-Fresh;
    }

  placed_ok :
      (row : ℕ) (raw : Raw) (before : List ValidationIssue)
      (x : Result Fault (Option SettlementRecord) × List ValidationIssue)
      (rest : Result Fault Sorted) (out : Sorted)
      → then_place py c filename source row raw before x rest ≡ ok out
      → (o : Option SettlementRecord) × (s : Sorted) × (x ≡ (ok o, x.1))
        × (rest ≡ ok s)
        × (placed py c filename source row raw (before +++ x.1) o s ≡ out)
  unfolding then_place
  placed_ok row raw before (err e, issues) rest out h = absurd cc
  placed_ok row raw before (ok r, issues) (err e) out h = absurd cc
  placed_ok row raw before (ok r, issues) (ok s) out h = (r, s, refl, refl, cc)

  pub validate_rows-Validates :
      (row : ℕ) (seen_rows : List (List (Option String))) (seen : List String) (rows : List Raw)
      (s : Sorted)
      → validate_rows py c filename source row seen_rows seen rows ≡ ok s
      → Validates row seen rows s
  unfolding validate_rows
  validate_rows-Validates row seen_rows seen [] s h =
      subst (Validates row seen []) (value_of h)
        (record { complete = λ strict. finished; sound = tt; fresh = tt })
  validate_rows-Validates row seen_rows seen (r ∷ rows) s h =
      let raw = raw_record py c filename source r in
      let duplicate = is_seen (fingerprint py c filename source raw) seen_rows in
      let (o, rest, judged, others, out) =
        placed_ok row raw
          (duplicate_issues py c filename source duplicate
            (is_member (text py raw "settlement_reference") seen))
          (validate_row py c filename row raw []) _ s h in
      subst (Validates row seen (r ∷ rows)) out (
        placed-Validates row seen raw r rows rest
          (validate_rows-Validates (row + 1) _ _ rows rest others) duplicate
          (is_member (text py raw "settlement_reference") seen) _ o refl judged)
