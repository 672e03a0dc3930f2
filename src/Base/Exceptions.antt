-- ===== src/Base/Exceptions.antt =====
-- Exceptions of the program (httpservice.hpp) and the outcome of code that may raise one.
use Prim.Native.Char.{code}
use Prim.Native.Nat.{ℕ}
use Prim.Native.String.{String}
use mathlib.Core.List.{List, [], ◌∷◌}

-- A std::string is the list of its bytes.
abbrev pub Bytes : Type 0
Bytes = List ℕ

-- The bytes of an ASCII literal.
abbrev pub codes : String → Bytes
codes String.[] = []
codes (String.◌∷◌ c s) = code c ∷ codes s

-- `HttpException` and its children; every other exception is a `std_exception` with its text.
pub data Exception : Type 0 where
  http_exception : Bytes → Exception
  not_found : Bytes → Exception
  invalid_method : Exception
  std_exception : Bytes → Exception

pub data Result {ℓ} (A : Type ℓ) : Type ℓ where
  ok : A → Result A
  raise : Exception → Result A

infixl 5 ◌>>=◌
-- An exception passes over the code behind it.
abbrev pub ◌>>=◌ {ℓ κ} : {A : Type ℓ} → {B : Type κ} → Result A → (A → Result B) → Result B
raise x >>= next = raise x
ok value >>= next = next value
