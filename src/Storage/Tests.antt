-- ===== src/Storage/Tests.antt =====
-- The theorems on the local storage at concrete inputs: files are texts, and a text is its own hash.
use Prim.Native.String.{count, ◌++◌}
use fintech_payments_data_pl.Prelude.{String, false, Option, none, some, [], ◌∷◌}
use fintech_payments_data_pl.Prelude.Dict.{Dict, get, put}
use fintech_payments_data_pl.Storage.{Platform, text_Eq}
use fintech_payments_data_pl.Storage.Local.{Moment, put_bytes_immutable, put_immutable}
use fintech_payments_data_pl.Storage.Local.Laws.{
  Stores, put_bytes_immutable-Stores, put_immutable-Stores,
}
use fintech_payments_data_pl.Storage.Local.Keeps.{Keeps, OthersKeep}
use fintech_payments_data_pl.Storage.Local.Immutable.{put_bytes_immutable-Keeps}

-- A sidecar is written as its checksum alone.
abbrev platform : Platform
platform = record {
  Bytes = String;
  strip = λ s. s;
  lower = λ s. s;
  underscores = λ s. s;
  sha256 = λ s. s;
  size = count;
  has_backslash = λ s. false;
  is_absolute = λ s. false;
  parts = λ s. s ∷ [];
  as_posix = λ s. s;
  join = λ a b. a ++ "/" ++ b;
  sidecar_path = λ s. s ++ ".metadata.json";
  encode = λ side. elim side.checksum_sha256 [ none ↦ "" | some c ↦ c ];
  decode = λ s. record { checksum_sha256 = some s; content_type = none; metadata = none };
}

abbrev roots : Dict String String
roots = ("bronze", "/data/bronze") ∷ []

abbrev files : Dict String String
files = ("/data/bronze/a", "old") ∷ []

-- Another process that writes to the same key by the same method, at every moment.
abbrev quiet : Moment → Dict String String → Dict String String
quiet moment fs = fs

abbrev rival : Moment → Dict String String → Dict String String
rival moment fs = (put_bytes_immutable platform roots quiet "bronze" "b" "new" "text/plain" [] fs).1

quiet-OthersKeep : OthersKeep platform roots quiet
quiet-OthersKeep moment fs path d e = e

rival-OthersKeep : OthersKeep platform roots rival
rival-OthersKeep moment fs =
    put_bytes_immutable-Keeps platform roots quiet "bronze" "b" "new" "text/plain" [] fs
      quiet-OthersKeep

put_bytes_immutable-Stores_example :
    let x = put_bytes_immutable platform roots rival "bronze" "b" "new" "text/plain" [] files in
    Stores platform roots rival "bronze" "b" "new" x.0 x.1
put_bytes_immutable-Stores_example =
    put_bytes_immutable-Stores platform roots rival "bronze" "b" "new" "text/plain" [] files
      rival-OthersKeep

put_immutable-Stores_example :
    let x = put_immutable platform roots rival "bronze" "a" "old" "old" "text/plain" [] files in
    Stores platform roots rival "bronze" "a" "old" x.0 x.1
put_immutable-Stores_example =
    put_immutable-Stores platform roots rival "bronze" "a" "old" "old" "text/plain" [] files
      rival-OthersKeep

put_bytes_immutable-Keeps_example :
    Keeps files
      (put_bytes_immutable platform roots rival "bronze" "b" "other" "text/plain" [] files).1
put_bytes_immutable-Keeps_example =
    put_bytes_immutable-Keeps platform roots rival "bronze" "b" "other" "text/plain" [] files
      rival-OthersKeep

-- Another writer, who creates one more file.
abbrev another_if : Option String → Dict String String → Dict String String
another_if none fs = put "/data/bronze/other" "x" fs
another_if (some d) fs = fs

abbrev another : Moment → Dict String String → Dict String String
another moment fs = another_if (get "/data/bronze/other" fs) fs
