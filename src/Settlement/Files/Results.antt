-- ===== src/Settlement/Files/Results.antt =====
-- The result of the validation of a settlement file, refused files included.
use fintech_payments_data_pl.Prelude.{
  String, ◌≡◌, refl, sym, ◌∙◌, ap, subst, List, [], ◌∷◌, map, length, All, Result, ok, err,
  Bool-cases, inl, inr,
}
use fintech_payments_data_pl.Storage.{text_Eq}
use fintech_payments_data_pl.Settlement.Models.{
  FilenameMetadata, SettlementRecord, ValidationIssue, RejectedRecord, FileValidationResult,
}
use fintech_payments_data_pl.Settlement.Contracts.{SettlementContract, Fault, field_names}
use fintech_payments_data_pl.Settlement.Validation.{Reader, Raw}
use fintech_payments_data_pl.Settlement.Files.{
  CsvFile, undecodable, unreadable, no_header, contents, Source, Sorted, file_rejection,
  accepted_file, validate_contents, validate_settlement_file, texts_eq,
}
use fintech_payments_data_pl.Settlement.Files.Laws.{
  Merges, numbered, IsStrict, Fresh, value_of, IsSound, accepted_rows, rejected_rows, references,
  Validates, validate_rows-Validates,
}

module _ (py : Reader) (c : SettlementContract) (filename : FilenameMetadata)
    (source : Source) where
  -- What a result holds beside the file's issues.
  abbrev sorted_of : FileValidationResult → Sorted
  sorted_of res = record { accepted = res.accepted_records; rejected = res.rejected_records }

  -- A file is refused as a whole, or its rows are validated.
  data Outcome (csv : CsvFile) (res : FileValidationResult) : Type 0 where
    refused : (code message : String) → file_rejection code message ≡ res → Outcome csv res
    validated :
        (header : List String) (rows : List Raw)
        → csv ≡ contents header rows
        → Validates py c filename source 2 [] rows (sorted_of res)
        → res.record_count ≡ length rows
        → Outcome csv res

  accepted_file-Outcome :
      (header : List String) (rows : List Raw) (r : Result Fault Sorted)
      (res : FileValidationResult)
      → ((s : Sorted) → r ≡ ok s → Validates py c filename source 2 [] rows s)
      → accepted_file py c filename source (length rows) r ≡ ok res
      → Outcome (contents header rows) res
  unfolding accepted_file
  accepted_file-Outcome header rows (err e) res v h = absurd cc
  accepted_file-Outcome header rows (ok s) res v h =
      validated header rows refl
        (subst
          (λ (x : FileValidationResult). Validates py c filename source 2 [] rows (sorted_of x))
          (value_of h) (v s refl))
        (ap (λ (x : FileValidationResult). x.record_count) (sym (value_of h)))

  contents-Outcome :
      (header : List String) (rows : List Raw) (res : FileValidationResult)
      → validate_contents py c filename source rows ≡ ok res
      → Outcome (contents header rows) res
  unfolding validate_contents
  contents-Outcome header [] res h = refused _ _ (value_of h)
  contents-Outcome header (r ∷ rows) res h =
      accepted_file-Outcome header (r ∷ rows) _ res
        (λ s e. validate_rows-Validates py c filename source 2 [] [] (r ∷ rows) s e) h

  validate_settlement_file-Outcome :
      (csv : CsvFile) (res : FileValidationResult)
      → validate_settlement_file py c filename source csv ≡ ok res
      → Outcome csv res
  unfolding validate_settlement_file
  validate_settlement_file-Outcome undecodable res h = refused _ _ (value_of h)
  validate_settlement_file-Outcome (unreadable e) res h = refused _ _ (value_of h)
  validate_settlement_file-Outcome no_header res h = refused _ _ (value_of h)
  validate_settlement_file-Outcome (contents header rows) res h =
      elim (Bool-cases (texts_eq header (field_names c))) [
        | inl same ↦ contents-Outcome header rows res (sym (rw same refl) ∙ h)
        | inr other ↦
            refused "INVALID_FILE_SCHEMA"
              "CSV header must exactly match the ordered settlement-v1 field list"
              (value_of (sym (rw other refl) ∙ h))
      ]

  refused_issues :
      (code message : String)
      → record { code = code; message = message } ∷ [] ≡ (file_rejection code message).file_issues
  unfolding file_rejection
  refused_issues code message = refl

  rows_of : CsvFile → List Raw
  rows_of (contents header rows) = rows
  rows_of _ = []

  some_issue : {i : ValidationIssue} {is : List ValidationIssue} → i ∷ is ≡ [] → ⊥
  some_issue e = cc

  -- No row is lost: when a file whose contract has every field but internal_transaction_id required
  -- and not nullable is validated without a file issue, its rows, numbered from 2, are those of the
  -- accepted and of the rejected records, each list in the order of the file, and they are counted.
  pub validate_settlement_file-Merges :
      (header : List String) (rows : List Raw) (res : FileValidationResult)
      → IsStrict c
      → validate_settlement_file py c filename source (contents header rows) ≡ ok res
      → res.file_issues ≡ []
      → Merges
          (map (λ (r : SettlementRecord). r.source_row_number) res.accepted_records)
          (map (λ (r : RejectedRecord). r.source_row_number) res.rejected_records)
          (numbered 2 rows)
        × (res.record_count ≡ length rows)
  validate_settlement_file-Merges header rows res strict h fine =
      elim (validate_settlement_file-Outcome (contents header rows) res h) [
        | refused code message e ↦ absurd (
            some_issue (
              refused_issues code message
              ∙ ap (λ (x : FileValidationResult). x.file_issues) e
              ∙ fine))
        | validated header' rows' same v n ↦
            let e : rows' ≡ rows = unfold rows_of in sym (ap rows_of same) in
            (
              subst
                  (λ l.
                    Merges (accepted_rows py c filename source (sorted_of res))
                      (rejected_rows py c filename source (sorted_of res)) (numbered 2 l))
                  e (v.complete strict),
              n ∙ ap length e,
            )
      ]

  -- Each record that a validation accepts has the partner and the date of the file's name, a reference,
  -- a partner's reference, a currency and a status that are not empty, a status that the contract
  -- lists, amounts in whole cents of at most 28 digits, an amount above zero, a fee of at least zero,
  -- and a net amount that is the amount minus the fee.
  pub validate_settlement_file-IsSound :
      (csv : CsvFile) (res : FileValidationResult)
      → validate_settlement_file py c filename source csv ≡ ok res
      → All (IsSound py c filename source) res.accepted_records
  validate_settlement_file-IsSound csv res h = elim (validate_settlement_file-Outcome csv res h) [
    | refused code message e ↦
        subst (λ (x : FileValidationResult). All (IsSound py c filename source) x.accepted_records)
          e (unfold file_rejection in tt)
    | validated header rows same v n ↦ v.sound
  ]

  -- The records that a validation accepts have different settlement references.
  pub validate_settlement_file-Fresh :
      (csv : CsvFile) (res : FileValidationResult)
      → validate_settlement_file py c filename source csv ≡ ok res
      → Fresh [] (map (λ (r : SettlementRecord). r.settlement_reference) res.accepted_records)
  validate_settlement_file-Fresh csv res h = elim (validate_settlement_file-Outcome csv res h) [
    | refused code message e ↦
        subst
          (λ (x : FileValidationResult). Fresh [] (references py c filename source (sorted_of x))) e
          (unfold file_rejection in tt)
    | validated header rows same v n ↦ v.fresh
  ]
