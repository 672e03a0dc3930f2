-- ===== src/Service/Params.antt =====
-- Where the environment of a request comes from: `processParamHeader` of fastcgipp/src/protocol.cpp,
-- and what `Environment::fill` of fastcgipp/src/http.cpp stores of the parameters that the web server
-- sends, for the three members that the program reads.
pub mod RoundTrip
use simurga.Base.{
  ℕ, zero, suc, ◌+◌, ◌*◌, ◌/◌, ◌%◌, ◌<◌, ◌≤◌, ◌≡◌, refl, ap, ◌∙◌, true, false, Option, none, some,
  List, [], ◌∷◌, ◌++◌, ◌==◌, ltb, leb, if◌then◌else◌, Bytes, codes, length, take, drop, All, arith,
  Bool-cases, inl, inr, take-length-append, drop-length-append, length-append,
}
use simurga.Service.{
  RequestMethod, method_error, head_method, get_method, post_method, put_method, delete_method,
  trace_method, options_method, connect_method, Environment,
}
use simurga.Text.{equal}

-- A size of four bytes without its highest bit, or of one byte; `none` is a read behind the end.
abbrev pub big_endian : ℕ → Bytes → Option (ℕ × Bytes)
big_endian a (b ∷ c ∷ d ∷ s) = some (a % 128 * 16777216 + (b * 65536 + (c * 256 + d)), s)
big_endian a _ = none

abbrev pub read_size : Bytes → Option (ℕ × Bytes)
read_size [] = none
read_size (b ∷ s) = if leb 128 b then big_endian b s else some (b, s)

-- A name and a value of the given sizes, and what stands behind them.
abbrev pub split_param : ℕ → ℕ → Bytes → Option (Bytes × Bytes × Bytes)
split_param n v s =
    if ltb (length s) (n + v) then none else some (take n s, take v (drop n s), drop v (drop n s))

abbrev pub sized : ℕ → Option (ℕ × Bytes) → Option (Bytes × Bytes × Bytes)
sized n none = none
sized n (some (v, s)) = split_param n v s

abbrev pub sizes : Option (ℕ × Bytes) → Option (Bytes × Bytes × Bytes)
sizes none = none
sizes (some (n, s)) = sized n (read_size s)

unfoldable pub process_param_header : Bytes → Option (Bytes × Bytes × Bytes)
process_param_header s = sizes (read_size s)

-- requestMethodLabels
unfoldable pub request_method_label : RequestMethod → Bytes
request_method_label method_error = codes "ERROR"
request_method_label head_method = codes "HEAD"
request_method_label get_method = codes "GET"
request_method_label post_method = codes "POST"
request_method_label put_method = codes "PUT"
request_method_label delete_method = codes "DELETE"
request_method_label trace_method = codes "TRACE"
request_method_label options_method = codes "OPTIONS"
request_method_label connect_method = codes "CONNECT"

-- The first of the methods whose label the value is.
abbrev pub first_labelled : List RequestMethod → Bytes → RequestMethod
first_labelled [] value = method_error
first_labelled (m ∷ ms) value =
    let rest = first_labelled ms value in if equal value (request_method_label m) then m else rest

-- The method that a value names, by the size of the value. CONNECT is compared with the label of
-- OPTIONS, and so is no method.
unfoldable pub method_named : Bytes → RequestMethod
unfolding request_method_label
method_named value =
    if length value == 3
    then first_labelled (get_method ∷ put_method ∷ []) value
    else if length value == 4
    then first_labelled (head_method ∷ post_method ∷ []) value
    else if length value == 5
    then first_labelled (trace_method ∷ []) value
    else if length value == 6
    then first_labelled (delete_method ∷ []) value
    else if length value == 7
    then first_labelled (options_method ∷ []) value
    else method_error

-- The cases of the switch for names of 11, 13 and 14 characters, for the members that the program
-- reads.
abbrev pub case_11 : Bytes → Bytes → Environment → Environment
case_11 name value env =
    if equal name (codes "REQUEST_URI") then record env { request_uri = value } else env

abbrev pub case_13 : Bytes → Bytes → Environment → Environment
case_13 name value env =
    if equal name (codes "DOCUMENT_ROOT") then record env { root = value } else env

abbrev pub case_14 : Bytes → Bytes → Environment → Environment
case_14 name value env =
    if equal name (codes "REQUEST_METHOD")
    then record env { request_method = method_named value }
    else env

-- The switch of `fill`
unfoldable pub store_param : Bytes → Bytes → Environment → Environment
unfolding method_named
store_param name value env =
    if length name == 11
    then case_11 name value env
    else if length name == 13
    then case_13 name value env
    else if length name == 14
    then case_14 name value env
    else env

-- A round of the loop of `fill`, with what the rounds after it do.
abbrev pub round :
    Option (Bytes × Bytes × Bytes)
    → (Bytes → Environment → Option Environment)
    → Environment
    → Option Environment
round none next env = none
round (some (name, value, rest)) next env = next rest (store_param name value env)

-- The loop of `fill`, with fuel for each parameter; `none` is a read behind the end.
unfoldable pub fill_loop : ℕ → Bytes → Environment → Option Environment
fill_loop fuel [] env = some env
fill_loop zero (c ∷ s) env = none
fill_loop (suc fuel) (c ∷ s) env = round (process_param_header (c ∷ s)) (fill_loop fuel) env

unfoldable pub fill : Bytes → Environment → Option Environment
unfolding fill_loop
fill s env = fill_loop (length s) s env

-- Environment::Environment
abbrev pub new_environment : Environment
new_environment = record { request_method = method_error; request_uri = []; root = [] }

-- How a web server writes a size below 2 ^ 31, and parameters.
abbrev pub write_size : ℕ → Bytes → Bytes
write_size n s =
    if ltb n 128
    then n ∷ s
    else (128 + n / 16777216) ∷ n / 65536 % 256 ∷ n / 256 % 256 ∷ n % 256 ∷ s

abbrev pub Param : Type 0
Param = Bytes × Bytes

abbrev pub write_param : Param → Bytes → Bytes
write_param (name, value) s =
    write_size (length name) (write_size (length value) (name ++ (value ++ s)))

unfoldable pub write_params : List Param → Bytes
write_params [] = []
write_params (p ∷ ps) = write_param p (write_params ps)

unfoldable pub store_params : List Param → Environment → Environment
store_params [] env = env
store_params ((name, value) ∷ ps) env = store_params ps (store_param name value env)

abbrev pub Fits : Param → Type 0
Fits (name, value) = (length name < 2147483648) × (length value < 2147483648)
