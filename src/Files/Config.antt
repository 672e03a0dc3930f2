-- ===== src/Files/Config.antt =====
-- `DirConfig` of src/httpservice.cpp: "key = value" lines.
use simurga.Base.{
  ℕ, ◌+◌, Bool, true, false, Option, none, some, List, [], ◌∷◌, ◌==◌, if◌then◌else◌, take, drop,
  Bytes,
}
use simurga.Dict.{Dict, lookup, insert}
use simurga.Files.{System}
use simurga.Text.{find, trim}

pub record DirConfig : Type 0 where
  pub exists : Bool
  pub entries : Dict Bytes

-- What getline gives until the stream is at its end: the last line has no newline behind it.
abbrev with_first : ℕ → List Bytes → List Bytes
with_first c [] = (c ∷ []) ∷ []
with_first c (l ∷ ls) = (c ∷ l) ∷ ls

unfoldable pub lines : Bytes → List Bytes
lines [] = [] ∷ []
lines (c ∷ s) = let rest = lines s in if c == b'\n' then [] ∷ rest else with_first c rest

-- data_[key] = value for the line `s` with its '=' at `pos`
abbrev pub store_at : Bytes → Option ℕ → Dict Bytes → Dict Bytes
store_at s none m = m
store_at s (some pos) m = insert (trim (take pos s)) (trim (drop (pos + 1) s)) m

abbrev pub store_line : Bytes → Dict Bytes → Dict Bytes
store_line [] m = m
store_line (c ∷ s) m = if c == b'#' then m else store_at (c ∷ s) (find (b'=' ∷ []) (c ∷ s)) m

unfoldable pub read_lines : List Bytes → Dict Bytes → Dict Bytes
read_lines [] m = m
read_lines (l ∷ ls) m = read_lines ls (store_line (trim l) m)

abbrev pub config_of : Option Bytes → DirConfig
config_of none = record { exists = false; entries = [] }
config_of (some s) = record { exists = true; entries = read_lines (lines s) [] }

-- The constructor.
unfoldable pub dir_config : System → Bytes → DirConfig
unfolding lines read_lines
dir_config sys file_name = config_of (sys.file file_name)

abbrev or_empty : Option Bytes → Bytes
or_empty none = []
or_empty (some v) = v

-- DirConfig::get
unfoldable pub get : DirConfig → Bytes → Bytes
get c key = or_empty (lookup key c.entries)
