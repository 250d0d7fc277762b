-- ===== src/Settlement/Tests.antt =====
-- The theorems on the settlement manifest at concrete inputs.
use fintech_payments_data_pl.Prelude.{String, ◌≡◌, refl, some, List, [], ◌∷◌, ok, arith}
use Prim.Native.String.{◌++◌ as append_text}
use fintech_payments_data_pl.Prelude.Rows.{first_row, count_where}
use fintech_payments_data_pl.Settlement.Models.{
  validating, processed, ManifestRecord, new_file, different_name_same_content,
}
use fintech_payments_data_pl.Settlement.Manifest.{
  Discovered, new_row, register_discovery, classify, insert_discovery, violates, get, has_content,
  has_name, name_kind, read_back, content_kind,
}
use fintech_payments_data_pl.Settlement.Manifest.Discovery.{IsUnique, register_discovery_again}
use fintech_payments_data_pl.Settlement.Manifest.History.{
  FileCall, discovering, moving, perform_all, perform_all-IsUnique, final_forever,
}

-- An id for the tests: the texts one after the other.
abbrev joined : String → String → String → String
joined a b c = append_text a (append_text b c)

abbrev checksum : String
checksum = "0123456789abcdef0123456789abcdef0123456789abcdef0123456789abcdef"

abbrev found_file : String → Discovered
found_file name = record {
  partner_id = "p1";
  file_name = name;
  file_path = "/in/file";
  file_size_bytes = 10;
  checksum_sha256 = checksum;
  schema_version = "1";
  settlement_date = some "2024-01-01";
  discovered_at = "2024-01-02T00:00:00+00:00";
  ingestion_run_id = "run";
}

abbrev file_id : String
file_id = joined "banking_partner_settlement" "p1" checksum

abbrev file_row : ManifestRecord
file_row = new_row file_id (found_file "a.csv")

first_discovery :
    register_discovery joined (found_file "a.csv") [] ≡ (ok (file_row, new_file), file_row ∷ [])
unfolding register_discovery classify insert_discovery violates get has_content has_name name_kind
    first_row count_where read_back
first_discovery = refl

register_discovery_again_example :
    register_discovery joined (found_file "b.csv") (file_row ∷ [])
    ≡ (ok (file_row, content_kind (found_file "b.csv") file_row), file_row ∷ [])
register_discovery_again_example =
    register_discovery_again joined (found_file "a.csv") (found_file "b.csv") [] file_row new_file
      (file_row ∷ []) first_discovery refl refl

renamed : content_kind (found_file "b.csv") file_row ≡ different_name_same_content
unfolding content_kind
renamed = refl

abbrev file_calls : List FileCall
file_calls =
    discovering (found_file "a.csv")
    ∷ discovering (found_file "b.csv")
    ∷ moving file_id validating []
    ∷ []

none-IsUnique : IsUnique []
none-IsUnique partner sum = unfold count_where in omega arith

perform_all-IsUnique_example : IsUnique (perform_all joined file_calls [])
perform_all-IsUnique_example = perform_all-IsUnique joined file_calls [] none-IsUnique

abbrev processed_row : ManifestRecord
processed_row = record file_row { status = processed }

final_forever_example :
    get file_id (perform_all joined file_calls (processed_row ∷ [])) ≡ some processed_row
unfolding get first_row
final_forever_example =
    final_forever joined file_calls (processed_row ∷ []) file_id processed_row refl refl
