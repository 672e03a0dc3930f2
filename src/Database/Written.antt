-- ===== src/Database/Written.antt =====
-- Connecting by a configuration that was written for it (`Database::connect` of src/db.cpp with
-- `DirConfig` of src/httpservice.cpp).
use simurga.Base.{
  ℕ, ◌≤◌, ◌≡◌, ◌≢◌, refl, ap, ◌∙◌, inl, inr, true, false, All, Option, none, some, List, [], ◌∷◌,
  ◌++◌, Bytes, codes, arith, is_empty, if◌then◌else◌, Bool, ◌||◌, not, leb, ltb, ◌+◌, ◌/◌, ◌%◌,
}
use simurga.Database.{ConnectArgs, Attempt, mysql_default_port, connect_args, thrown, connect}
use simurga.Dict.{lookup, insert}
use simurga.Files.Config.{get}
use simurga.Files.Lines.{IsKey, IsValue, Line, entry, write, IsLine, meaning, dir_config-write}
use simurga.Files.{System}
use simurga.Text.Decimal.{is_digit, digits_of, u32_max, to_string, from_string}
use simurga.Text.Decimals.{from_string-to_string, to_string-All}
use simurga.Text.Trim.{IsTrimmed, ends_solid}
use simurga.Text.{equal, find, is_white}

-- What the file tells; a port may be left out.
pub record Settings : Type 0 where
  pub host : Bytes
  pub user : Bytes
  pub passwd : Bytes
  pub db : Bytes
  pub port : Option ℕ
  pub unix_socket : Bytes

abbrev port_line : Option ℕ → List Line → List Line
port_line none ls = ls
port_line (some n) ls = entry (codes "port") (to_string n) ∷ ls

abbrev pub lines_of : Settings → List Line
lines_of c =
    entry (codes "host") c.host
    ∷ entry (codes "user") c.user
    ∷ entry (codes "passwd") c.passwd
    ∷ entry (codes "db") c.db
    ∷ entry (codes "unix_socket") c.unix_socket
    ∷ port_line c.port []

abbrev pub port_of : Option ℕ → ℕ
port_of none = 3306
port_of (some n) = n

abbrev pub IsPort : Option ℕ → Type 0
IsPort none = Unit
IsPort (some n) = n ≤ u32_max

-- Texts that a line can hold, and a port of 32 bits.
pub record AreSettings (c : Settings) : Type 0 where
  pub host : IsValue c.host
  pub user : IsValue c.user
  pub passwd : IsValue c.passwd
  pub db : IsValue c.db
  pub unix_socket : IsValue c.unix_socket
  pub port : IsPort c.port

abbrev pub args_of : Settings → ConnectArgs
args_of c = record {
  host = if is_empty c.host then none else some c.host;
  user = c.user;
  passwd = c.passwd;
  db = c.db;
  port = port_of c.port;
  unix_socket = if is_empty c.unix_socket then none else some c.unix_socket;
  flags = 0;
  charset = codes "utf8";
}

-- Digits, '_' and small letters, which a key or a value may be of.
abbrev is_sign : ℕ → Bool
is_sign c = is_digit c || leb b'_' c

sign-solid : (c : ℕ) → is_sign c ≡ true → not (is_white c) ≡ true
sign-solid c h = ground arith

signs-NoNewline : (s : Bytes) → All (λ c. is_sign c ≡ true) s → All (λ c. c ≢ b'\n') s
signs-NoNewline [] h = tt
signs-NoNewline (c ∷ s) h = (λ e. ground (arith, h.0), signs-NoNewline s h.1)

signs-end : (c : ℕ) (s : Bytes) → All (λ d. is_sign d ≡ true) (c ∷ s) → ends_solid (c ∷ s) ≡ true
signs-end c [] h = sign-solid c h.0
signs-end c (d ∷ s) h = signs-end d s h.1

signs-IsTrimmed : (c : ℕ) (s : Bytes) → All (λ d. is_sign d ≡ true) (c ∷ s) → IsTrimmed (c ∷ s)
signs-IsTrimmed c s h = record { starts = sign-solid c h.0; ends = signs-end c s h }

pub signs-IsValue : (s : Bytes) → All (λ c. is_sign c ≡ true) s → IsValue s
signs-IsValue [] h = record { trimmed = inl refl; no_newline = tt }
signs-IsValue (c ∷ s) h = record {
  trimmed = inr (signs-IsTrimmed c s h);
  no_newline = signs-NoNewline (c ∷ s) h;
}

signs-no_equals : (s : Bytes) → All (λ c. is_sign c ≡ true) s → find (b'=' ∷ []) s ≡ none
unfolding find
signs-no_equals [] h = refl
signs-no_equals (c ∷ s) h = ground (arith, h.0, signs-no_equals s h.1)

signs-IsKey : (c : ℕ) (s : Bytes) → All (λ d. is_sign d ≡ true) (c ∷ s) → IsKey (c ∷ s)
signs-IsKey c s h = record {
  trimmed = signs-IsTrimmed c s h;
  no_newline = signs-NoNewline (c ∷ s) h;
  no_equals = signs-no_equals (c ∷ s) h;
  no_comment = λ t e. ground (arith, h.0);
}

digits-signs : (s : Bytes) → All (λ c. is_digit c ≡ true) s → All (λ c. is_sign c ≡ true) s
digits-signs [] h = tt
digits-signs (c ∷ s) h = (rw h.0 refl, digits-signs s h.1)

to_string-IsValue : (n : ℕ) → IsValue (to_string n)
to_string-IsValue n = signs-IsValue (to_string n) (digits-signs (to_string n) (to_string-All n))

host-IsKey : IsKey (codes "host")
host-IsKey = signs-IsKey _ _ (refl, (refl, (refl, (refl, tt))))

user-IsKey : IsKey (codes "user")
user-IsKey = signs-IsKey _ _ (refl, (refl, (refl, (refl, tt))))

passwd-IsKey : IsKey (codes "passwd")
passwd-IsKey = signs-IsKey _ _ (refl, (refl, (refl, (refl, (refl, (refl, tt))))))

db-IsKey : IsKey (codes "db")
db-IsKey = signs-IsKey _ _ (refl, (refl, tt))

port-IsKey : IsKey (codes "port")
port-IsKey = signs-IsKey _ _ (refl, (refl, (refl, (refl, tt))))

unix_socket-IsKey : IsKey (codes "unix_socket")
unix_socket-IsKey =
    signs-IsKey _ _
      (refl, (refl, (refl, (refl, (refl, (refl, (refl, (refl, (refl, (refl, (refl, tt)))))))))))

port_line-IsLine : (p : Option ℕ) → All IsLine (port_line p [])
port_line-IsLine none = tt
port_line-IsLine (some n) = ((port-IsKey, to_string-IsValue n), tt)

lines_of-IsLine : (c : Settings) → AreSettings c → All IsLine (lines_of c)
lines_of-IsLine c h = (
  (host-IsKey, h.host),
  (
    (user-IsKey, h.user),
    (
      (passwd-IsKey, h.passwd),
      ((db-IsKey, h.db), ((unix_socket-IsKey, h.unix_socket), port_line-IsLine c.port)),
    ),
  ),
)

is_empty-to_string : (n : ℕ) → is_empty (to_string n) ≡ false
unfolding to_string digits_of
is_empty-to_string n = in_case (ltb n 10) (digits_of n (n / 10))
  where
    in_case :
        (b : Bool) (s : Bytes)
        → is_empty (if b then (b'0' + n) ∷ [] else s ++ (b'0' + n % 10) ∷ []) ≡ false
    in_case true s = refl
    in_case false [] = refl
    in_case false (c ∷ s) = refl

port-to_string :
    (n : ℕ)
    → n ≤ u32_max
    → (if is_empty (to_string n) then mysql_default_port else from_string (to_string n)) ≡ n
port-to_string n h = rw (is_empty-to_string n) (from_string-to_string n h)

connect_args-meaning :
    (c : Settings)
    → IsPort c.port
    → connect_args (record { exists = true; entries = meaning (lines_of c) [] }) ≡ args_of c
unfolding connect_args get lookup insert equal
connect_args-meaning c h = by_port c.port h
  where
    by_port :
        (p : Option ℕ)
        → IsPort p
        → connect_args
            (record { exists = true; entries = meaning (lines_of (record c { port = p })) [] })
          ≡ args_of (record c { port = p })
    by_port none h = refl
    by_port (some n) h =
        ap (λ x. record (args_of (record c { port = some n })) { port = x }) (port-to_string n h)

-- From a configuration that was written of settings that its lines can hold, with a port of 32 bits or
-- none, the client is called with just these settings: an empty host or socket as a null pointer, and
-- the default port if none is given.
pub connect-written :
    (sys : System) (data_dir : Bytes) (client : ConnectArgs → Attempt (Unit {0})) (c : Settings)
    → AreSettings c
    → sys.file (data_dir ++ codes "/etc/db.conf") ≡ some (write (lines_of c))
    → connect sys data_dir client ≡ thrown (client (args_of c))
unfolding connect
connect-written sys data_dir client c h e =
    ap (λ d. thrown (client (connect_args d)))
      (dir_config-write sys _ (lines_of c) e (lines_of-IsLine c h))
    ∙ ap (λ a. thrown (client a)) (connect_args-meaning c h.port)
