-- ===== src/Tests/Files.antt =====
-- Runs of the code that reads configuration files and directories, of the database work, and of
-- numbers and ids.
use simurga.Base.{
  ℕ, zero, suc, true, ◌≡◌, ◌≢◌, ◌++◌, refl, inl, inr, ◌==◌, if◌then◌else◌, some, List, [], ◌∷◌,
  Bytes, codes, arith, All, Result, ok,
}
use simurga.Database.Written.{
  Settings, AreSettings, args_of, lines_of, signs-IsValue, connect-written,
}
use simurga.Database.Retry.{execute-first, execute-Ran, Ran, failed_rounds, FailsBefore}
use simurga.Database.{
  ConnectArgs, thrown, connect, Attempt, Tried, gives, sql_error, execute, statement,
}
use simurga.Files.Config.{dir_config}
use simurga.Files.Lines.{
  Line, entry, comment, blank, write, IsValue, IsLine, meaning, dir_config-write,
}
use simurga.Files.Listing.{enum_items, Names, Listed, enum_items-Listed}
use simurga.Files.{System, Dirent, regular, directory}
use simurga.Pages.Model.{size_to_string}
use simurga.Pages.Sizes.{chosen, shown_sizes, size_to_string-join}
use simurga.Template.Rendering.{join}
use simurga.Text.{find}

abbrev settings : List Line
settings =
    comment (codes " pages") ∷ entry (codes "title") (codes "Shop = 1") ∷ blank (codes " ") ∷ []

abbrev entries : List Dirent
entries =
    record { d_name = codes "b.jpg"; d_type = regular }
    ∷ record { d_name = codes ".jpg"; d_type = regular }
    ∷ record { d_name = codes "a.jpg"; d_type = regular }
    ∷ record { d_name = codes "c.jpg"; d_type = directory }
    ∷ []

abbrev disk : System
disk = record {
  file = λ name. some (write settings);
  blocks = λ name. [];
  dir = λ name. some entries;
}

settings-IsLine : All IsLine settings
unfolding find
settings-IsLine = (
  omegas,
  (
    (
      record {
        trimmed = record { starts = refl; ends = refl };
        no_newline = title;
        no_equals = refl;
        no_comment = λ s p. cc;
      },
      record { trimmed = inr (record { starts = refl; ends = refl }); no_newline = shop },
    ),
    (((omega arith, tt), (refl, tt)), tt),
  ),
)
  where
    omegas : All (λ c. c ≢ b'\n') (codes " pages")
    omegas =
        (omega arith, (omega arith, (omega arith, (omega arith, (omega arith, (omega arith, tt))))))

    title : All (λ c. c ≢ b'\n') (codes "title")
    title = (omega arith, (omega arith, (omega arith, (omega arith, (omega arith, tt)))))

    shop : All (λ c. c ≢ b'\n') (codes "Shop = 1")
    shop = (
      omega arith,
      (
        omega arith,
        (
          omega arith,
          (omega arith, (omega arith, (omega arith, (omega arith, (omega arith, tt))))),
        ),
      ),
    )

dir_config_example :
    dir_config disk (codes "x") ≡ record { exists = true; entries = meaning settings [] }
dir_config_example = dir_config-write disk (codes "x") settings refl settings-IsLine

enum_items_example :
    (names : List Bytes) × Names (codes ".jpg") regular entries names
    × Listed names [] (enum_items disk (codes "x") (codes ".jpg") regular [] true)
enum_items_example = enum_items-Listed disk (codes "x") (codes ".jpg") regular [] refl

-- A server that fails once, behind the first row.
abbrev flaky : ℕ → Tried ℕ
flaky zero = record { added = 5 ∷ []; outcome = sql_error (codes "gone away") }
flaky _ = record { added = 5 ∷ 7 ∷ []; outcome = gives tt }

abbrev broken : ℕ → Tried ℕ
broken n = record { added = []; outcome = sql_error (codes "gone away") }

abbrev works : ℕ → Result (Unit {0})
works n = ok tt

flaky-FailsBefore : FailsBefore flaky works 1
flaky-FailsBefore zero h = ((codes "gone away", refl), refl)
flaky-FailsBefore (suc i) h = absurd (omega arith)

-- The row that the failed try has added stands in front of those of the try that works.
execute-first_example :
    execute flaky works []
    ≡ (ok (5 ∷ 5 ∷ 7 ∷ []), failed_rounds flaky works 1 0 ++ statement 1 ∷ [])
execute-first_example = execute-first flaky works [] 1 (omega arith) flaky-FailsBefore refl

execute-Ran_example : Ran broken works [] (execute broken works [])
execute-Ran_example = execute-Ran broken works []

size_example : size_to_string 536 ≡ join (codes ", ") (chosen 536 shown_sizes)
size_example = size_to_string-join 536

two_sizes : size_to_string 536 ≡ codes "38-40, 42-44"
unfolding size_to_string
two_sizes = refl

abbrev db_settings : Settings
db_settings = record {
  host = [];
  user = codes "shop";
  passwd = codes "abc";
  db = codes "simurga";
  port = some 3307;
  unix_socket = [];
}

nothing-IsValue : IsValue []
nothing-IsValue = record { trimmed = inl refl; no_newline = tt }

db_settings-AreSettings : AreSettings db_settings
db_settings-AreSettings = record {
  host = nothing-IsValue;
  user = signs-IsValue _ (refl, (refl, (refl, (refl, tt))));
  passwd = signs-IsValue _ (refl, (refl, (refl, tt)));
  db = signs-IsValue _ (refl, (refl, (refl, (refl, (refl, (refl, (refl, tt)))))));
  unix_socket = nothing-IsValue;
  port = omega arith;
}

abbrev db_disk : System
db_disk = record disk { file = λ name. some (write (lines_of db_settings)) }

-- A server that takes connections at one port.
abbrev db_client : ConnectArgs → Attempt (Unit {0})
db_client args = if args.port == 3307 then gives tt else sql_error (codes "refused")

connect-written_example :
    connect db_disk (codes "/srv") db_client ≡ thrown (db_client (args_of db_settings))
connect-written_example =
    connect-written db_disk (codes "/srv") db_client db_settings db_settings-AreSettings refl
