-- ===== src/Silver/Manifest/Queries.antt =====
-- The queries of `SqliteProcessingManifest`. Texts are compared as SQLite compares them, and a
-- missing time comes last in a descending order.
pub mod Laws
use Prim.Native.String.{compare as compare_text}
use text.Mathlib.Text.{is_eq, is_lt}
use fintech_payments_data_pl.Prelude.{
  ℕ, String, Bool, true, false, not, ◌&&◌, ◌||◌, Option, none, some, List, [], ◌∷◌, select, ◌==◌,
  str_eq, if◌then◌else◌,
}
use fintech_payments_data_pl.Prelude.Rows.{first_row, sort_by}
use fintech_payments_data_pl.Silver.Models.{
  ProcessingStatus, completed, OutputType, history, latest_all, current, events, settlements,
  rejections, unresolved_references, SilverOutput, ProcessingRun,
}
use fintech_payments_data_pl.Silver.Manifest.{Table, status_eq}

text_leb : String → String → Bool
text_leb a b = not (is_lt (compare_text b a))

-- `ORDER BY started_at, run_id`
started_order : ProcessingRun → ProcessingRun → Bool
unfolding text_leb
started_order a b =
    is_lt (compare_text a.started_at b.started_at)
    || (is_eq (compare_text a.started_at b.started_at) && text_leb a.run_id b.run_id)

unfoldable pub list_all : Table → Table
unfolding started_order
list_all t = sort_by started_order t

-- `ORDER BY started_at DESC, run_id DESC`
started_latest : ProcessingRun → ProcessingRun → Bool
unfolding started_order
started_latest a b = started_order b a

-- `ORDER BY completed_at DESC, run_id DESC`
unfoldable pub completed_latest : ProcessingRun → ProcessingRun → Bool
unfolding text_leb
completed_latest a b = elim a.completed_at [
  | none ↦ elim b.completed_at [ none ↦ text_leb b.run_id a.run_id | some y ↦ false ]
  | some x ↦ elim b.completed_at [
    | none ↦ true
    | some y ↦ is_lt (compare_text y x) || (is_eq (compare_text y x) && text_leb b.run_id a.run_id)
  ]
]

-- The arguments of `find_completed` and `find_latest_identity`.
pub record Identity : Type 0 where
  pub pipeline_name : String
  pub input_checksum : String
  pub code_version : String
  pub schema_version : String

unfoldable pub has_identity : Identity → ProcessingRun → Bool
has_identity i r =
    str_eq r.pipeline_name i.pipeline_name
    && str_eq r.input_checksum i.input_checksum
    && str_eq r.code_version i.code_version
    && str_eq r.schema_version i.schema_version

-- The filter stands behind the ordering, which gives the same rows.
unfoldable pub find_completed : Identity → Table → Option ProcessingRun
unfolding completed_latest
find_completed i t =
    first_row (λ r. has_identity i r && status_eq r.status completed) (sort_by completed_latest t)

unfoldable pub find_latest_identity : Identity → Table → Option ProcessingRun
unfolding started_latest
find_latest_identity i t = first_row (has_identity i) (sort_by started_latest t)

type_number : OutputType → ℕ
type_number history = 0
type_number latest_all = 1
type_number current = 2
type_number events = 3
type_number settlements = 4
type_number rejections = 5
type_number unresolved_references = 6

unfoldable pub output_type_eq : OutputType → OutputType → Bool
unfolding type_number
output_type_eq a b = type_number a == type_number b

-- `for raw in json.loads(row["output_descriptors_json"])`
output_of : OutputType → List SilverOutput → Option SilverOutput
unfolding output_type_eq
output_of type [] = none
output_of type (o ∷ os) = if output_type_eq o.output_type type then some o else output_of type os

or_later : Option SilverOutput → Option SilverOutput → Option SilverOutput
or_later none later = later
or_later (some o) later = some o

output_of_rows : OutputType → List ProcessingRun → Option SilverOutput
unfolding output_of or_later
output_of_rows type [] = none
output_of_rows type (r ∷ rs) = or_later (output_of type r.outputs) (output_of_rows type rs)

-- `AND input_checksum != ?`
is_kept : Option String → ProcessingRun → Bool
is_kept none r = true
is_kept (some checksum) r = not (str_eq r.input_checksum checksum)

unfoldable pub is_candidate : String → Option String → ProcessingRun → Bool
unfolding is_kept
is_candidate entity exclude r =
    str_eq r.entity_name entity && status_eq r.status completed && is_kept exclude r

unfoldable pub latest_output : String → OutputType → Option String → Table → Option SilverOutput
unfolding output_of_rows completed_latest
latest_output entity type exclude t =
    output_of_rows type (sort_by completed_latest (select (is_candidate entity exclude) t))
