-- ===== src/Settlement/Files.antt =====
-- `validate_settlement_file` of src/ingestion/batch/validation.py: the rows of a file, of which the
-- bad ones are rejected one by one. What Python's `csv` makes of the file is a parameter.
pub mod Laws
pub mod Results
mod Tests
use Prim.Native.String.{◌++◌}
use fintech_payments_data_pl.Prelude.{
  ℕ, ◌+◌, String, Bool, true, false, not, ◌&&◌, ◌||◌, Option, none, some, List, [], ◌∷◌, map,
  length, Result, ok, err, str_eq, if◌then◌else◌,
}
use mathlib.Core.List.{◌++◌ as ◌+++◌}
use fintech_payments_data_pl.Prelude.Dict.{get}
use fintech_payments_data_pl.Storage.{text_Eq}
use fintech_payments_data_pl.Settlement.Models.{
  FilenameMetadata, SettlementRecord, ValidationIssue, RejectedRecord, FileValidationResult,
}
use fintech_payments_data_pl.Settlement.Contracts.{SettlementContract, Fault, field_names}
use fintech_payments_data_pl.Settlement.Validation.{
  Reader, Raw, validate_row, text, raw_value, is_empty, is_member, join_with,
}

-- What opening and reading the file gives: `UnicodeError`, an error with its text, no header, or the
-- header with the rows.
pub data CsvFile : Type 0 where
  undecodable : CsvFile
  unreadable : String → CsvFile
  no_header : CsvFile
  contents : List String → List Raw → CsvFile

unfoldable pub file_rejection : String → String → FileValidationResult
file_rejection code message = record {
  file_issues = record { code = code; message = message } ∷ [];
  accepted_records = [];
  rejected_records = [];
  record_count = 0;
}

-- `dict.fromkeys`: the first occurrences.
distinct : List String → List String → List String
distinct seen [] = []
distinct seen (x ∷ xs) =
    let skip = distinct seen xs in
    let keep = distinct (x ∷ seen) xs in if is_member x seen then skip else x ∷ keep

option_eq : Option String → Option String → Bool
option_eq none none = true
option_eq (some a) (some b) = str_eq a b
option_eq _ _ = false

fingerprint_eq : List (Option String) → List (Option String) → Bool
unfolding option_eq
fingerprint_eq [] [] = true
fingerprint_eq (a ∷ xs) (b ∷ ys) = option_eq a b && fingerprint_eq xs ys
fingerprint_eq _ _ = false

is_seen : List (Option String) → List (List (Option String)) → Bool
unfolding fingerprint_eq
is_seen f [] = false
is_seen f (g ∷ gs) = fingerprint_eq g f || is_seen f gs

texts_eq : List String → List String → Bool
texts_eq [] [] = true
texts_eq (a ∷ xs) (b ∷ ys) = str_eq a b && texts_eq xs ys
texts_eq _ _ = false

-- Where the file comes from and when it is read.
pub record Source : Type 0 where
  pub file_name : String
  pub rejected_at : String
  pub ingestion_run_id : String

-- The rows that are accepted and the rows that are rejected.
pub record Sorted : Type 0 where
  pub accepted : List SettlementRecord
  pub rejected : List RejectedRecord

module _ (py : Reader) (c : SettlementContract) (filename : FilenameMetadata)
    (source : Source) where
  -- `{field: raw_row.get(field) for field in contract.field_names}`
  unfoldable pub raw_record : Raw → Raw
  unfolding raw_value
  raw_record row = map (λ name. (name, raw_value (get name row))) (field_names c)

  fingerprint : Raw → List (Option String)
  fingerprint raw = map (λ (p : String × Option String). p.1) raw

  -- The issues that come before the row's own.
  duplicate_issues : Bool → Bool → List ValidationIssue
  duplicate_issues true _ =
      record { code = "DUPLICATE_ROW"; message = "Identical row already appeared in file" } ∷ []
  duplicate_issues false true =
      record {
        code = "DUPLICATE_SETTLEMENT_REFERENCE";
        message = "settlement_reference must be unique within one file";
      }
      ∷ []
  duplicate_issues false false = []

  rejection : ℕ → Raw → List ValidationIssue → RejectedRecord
  unfolding distinct
  rejection row raw issues = record {
    source_file = source.file_name;
    source_row_number = row;
    raw_record = raw;
    error_code = join_with "|" (distinct [] (map (λ (i : ValidationIssue). i.code) issues));
    error_message = join_with "; " (map (λ (i : ValidationIssue). i.message) issues);
    rejected_at = source.rejected_at;
    ingestion_run_id = source.ingestion_run_id;
  }

  -- What a row adds to the rows after it.
  placed : ℕ → Raw → List ValidationIssue → Option SettlementRecord → Sorted → Sorted
  placed row raw (i ∷ is) r rest = record rest {
    rejected = rejection row raw (i ∷ is) ∷ rest.rejected;
  }
  placed row raw [] (some r) rest = record rest { accepted = r ∷ rest.accepted }
  placed row raw [] none rest = rest

  then_place :
      ℕ
      → Raw
      → List ValidationIssue
      → Result Fault (Option SettlementRecord) × List ValidationIssue
      → Result Fault Sorted
      → Result Fault Sorted
  then_place row raw before (err e, issues) rest = err e
  then_place row raw before (ok r, issues) (err e) = err e
  then_place row raw before (ok r, issues) (ok rest) =
      ok (placed row raw (before +++ issues) r rest)

  add_reference : String → List String → List String
  add_reference reference seen = if is_empty reference then seen else reference ∷ seen

  add_fingerprint :
      Bool → List (Option String) → List (List (Option String)) → List (List (Option String))
  add_fingerprint duplicate f seen = if duplicate then seen else f ∷ seen

  -- The loop, from the row numbered `row` on.
  unfoldable pub validate_rows :
      ℕ → List (List (Option String)) → List String → List Raw → Result Fault Sorted
  unfolding is_seen fingerprint duplicate_issues then_place placed rejection add_reference
      add_fingerprint
  validate_rows row seen_rows seen_references [] = ok (record { accepted = []; rejected = [] })
  validate_rows row seen_rows seen_references (raw_row ∷ rows) =
      let raw = raw_record raw_row in
      let duplicate_row = is_seen (fingerprint raw) seen_rows in
      let reference = text py raw "settlement_reference" in
      then_place row raw (duplicate_issues duplicate_row (is_member reference seen_references))
        (validate_row py c filename row raw [])
        (validate_rows (row + 1) (add_fingerprint duplicate_row (fingerprint raw) seen_rows)
          (add_reference reference seen_references) rows)

  accepted_file : ℕ → Result Fault Sorted → Result Fault FileValidationResult
  accepted_file n (err e) = err e
  accepted_file n (ok s) = ok (record {
    file_issues = [];
    accepted_records = s.accepted;
    rejected_records = s.rejected;
    record_count = n;
  })

  validate_contents : List Raw → Result Fault FileValidationResult
  validate_contents [] =
      ok (file_rejection "EMPTY_FILE" "Settlement file has a header but no records")
  validate_contents (r ∷ rows) =
      accepted_file (length (r ∷ rows)) (validate_rows 2 [] [] (r ∷ rows))

  unfoldable pub validate_settlement_file : CsvFile → Result Fault FileValidationResult
  unfolding validate_contents accepted_file texts_eq
  validate_settlement_file undecodable =
      ok (file_rejection "INVALID_ENCODING" ("File must use " ++ c.encoding ++ " encoding"))
  validate_settlement_file (unreadable error) =
      ok (file_rejection "INVALID_CSV" ("CSV cannot be parsed: " ++ error))
  validate_settlement_file no_header =
      ok (file_rejection "EMPTY_FILE" "Settlement file has no header")
  validate_settlement_file (contents header rows) =
      if texts_eq header (field_names c)
      then validate_contents rows
      else ok (
          file_rejection "INVALID_FILE_SCHEMA"
            "CSV header must exactly match the ordered settlement-v1 field list")
