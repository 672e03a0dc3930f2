-- ===== src/Service/Params/RoundTrip.antt =====
-- `fill` of fastcgipp/src/http.cpp on what a web server writes.
use simurga.Base.{
  ℕ, zero, suc, ◌+◌, ◌*◌, ◌/◌, ◌%◌, ◌<◌, ◌≤◌, ◌≡◌, refl, ap, ◌∙◌, true, false, some, List, [], ◌∷◌,
  ◌++◌, ltb, leb, Bytes, length, All, arith, Bool-cases, inl, inr, take-length-append,
  drop-length-append, length-append,
}
use simurga.Service.{Environment}
use simurga.Service.Params.{
  read_size, split_param, sized, sizes, process_param_header, store_param, round, fill_loop, fill,
  write_size, Param, write_param, write_params, store_params, Fits,
}

small_size : (n : ℕ) → ltb n 128 ≡ true → leb 128 n ≡ false
small_size n h = ground arith

large_size : (n : ℕ) → leb 128 (128 + n) ≡ true
large_size n = ground arith

-- The four bytes of a size.
big_endian-value :
    (n : ℕ)
    → n < 2147483648
    → ((128 + n / 16777216) % 128 * 16777216
        + (n / 65536 % 256 * 65536 + (n / 256 % 256 * 256 + n % 256)))
      ≡ n
big_endian-value n h = omega arith

read_size-write_size :
    (n : ℕ) (s : Bytes) → n < 2147483648 → read_size (write_size n s) ≡ some (n, s)
read_size-write_size n s h = elim (Bool-cases (ltb n 128)) [
  | inl small ↦ rw small (rw (small_size n small) refl)
  | inr large ↦ rw large (rw large_size (ap (λ m. some (m, s)) (big_endian-value n h)))
]

split_param-append :
    (n v s : Bytes) → split_param (length n) (length v) (n ++ (v ++ s)) ≡ some (n, v, s)
split_param-append n v s = rw (long_enough n v s) (
    rw
      (
        take-length-append n (v ++ s),
        drop-length-append n (v ++ s),
        take-length-append v s,
        drop-length-append v s,
      )
      refl)
  where
    long_enough : (n v s : Bytes) → ltb (length (n ++ (v ++ s))) (length n + length v) ≡ false
    long_enough n v s = ground (arith, length-append n (v ++ s), length-append v s)

process_param_header-write_param :
    (name value s : Bytes)
    → Fits (name, value)
    → process_param_header (write_param (name, value) s) ≡ some (name, value, s)
unfolding process_param_header
process_param_header-write_param name value s h =
    ap sizes (read_size-write_size (length name) _ h.0)
    ∙ ap (sized (length name)) (read_size-write_size (length value) _ h.1)
    ∙ split_param-append name value s

fill_loop-param :
    (fuel : ℕ) (s : Bytes) (name value rest : Bytes) (env : Environment)
    → process_param_header s ≡ some (name, value, rest)
    → fill_loop (suc fuel) s env ≡ fill_loop fuel rest (store_param name value env)
unfolding fill_loop process_param_header
fill_loop-param fuel [] name value rest env h = cc
fill_loop-param fuel (c ∷ s) name value rest env h = ap (λ r. round r (fill_loop fuel) env) h

write_size-length : (n : ℕ) (s : Bytes) → suc (length s) ≤ length (write_size n s)
write_size-length n s = elim (Bool-cases (ltb n 128)) [
  | inl small ↦ rw small (omega arith)
  | inr large ↦ rw large (omega arith)
]

pub write_param-length :
    (name value s : Bytes) → suc (length s) ≤ length (write_param (name, value) s)
write_param-length name value s = omega (
  arith,
  write_size-length (length name) (write_size (length value) (name ++ (value ++ s))),
  write_size-length (length value) (name ++ (value ++ s)),
  length-append name (value ++ s),
  length-append value s,
)

fill_loop-write_params :
    (fuel : ℕ) (ps : List Param) (env : Environment)
    → length (write_params ps) ≤ fuel
    → All Fits ps
    → fill_loop fuel (write_params ps) env ≡ some (store_params ps env)
unfolding fill_loop write_params store_params
fill_loop-write_params fuel [] env h fits = refl
fill_loop-write_params zero ((name, value) ∷ ps) env h fits =
    absurd (omega (arith, write_param-length name value (write_params ps)))
fill_loop-write_params (suc fuel) ((name, value) ∷ ps) env h fits =
    fill_loop-param fuel _ name value (write_params ps) env
      (process_param_header-write_param name value (write_params ps) fits.0)
    ∙ fill_loop-write_params fuel ps (store_param name value env)
        (omega (arith, write_param-length name value (write_params ps))) fits.1

-- Parameters that a web server writes with sizes of one or of four bytes, each name and value shorter
-- than 2 ^ 31, are read to the end and stored one after the other in the environment of the request.
pub fill-write_params :
    (ps : List Param) (env : Environment)
    → All Fits ps
    → fill (write_params ps) env ≡ some (store_params ps env)
unfolding fill
fill-write_params ps env fits =
    fill_loop-write_params (length (write_params ps)) ps env (omega arith) fits
