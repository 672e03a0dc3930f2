-- ===== src/Pages/Model.antt =====
-- The functions of src/model.cpp: ids, images and sizes.
use simurga.Base.{
  ℕ, zero, suc, ◌+◌, ◌*◌, ◌/◌, ◌%◌, Bool, true, false, not, ◌&&◌, ◌||◌, Option, none, some, [], ◌∷◌,
  ◌++◌, ◌==◌, leb, if◌then◌else◌, take, drop, is_empty, Bytes, codes, Result, ok, raise,
}
use simurga.Service.{object_not_found}
use simurga.Text.Decimal.{from_string, to_string}
use simurga.Text.{find}

abbrev pub is_letter : ℕ → Bool
is_letter c = leb b'a' c && leb c b'z' || leb b'A' c && leb c b'Z'

abbrev pub is_digit : ℕ → Bool
is_digit c = leb b'0' c && leb c b'9'

abbrev pub is_special : ℕ → Bool
is_special c = c == b'-' || c == b'_'

-- The loop over color_name.
unfoldable pub check_color : Bytes → Result (Unit {0})
check_color [] = ok tt
check_color (c ∷ s) =
    let rest = check_color s in
    if not (is_letter c) && not (is_digit c) && not (is_special c)
    then raise object_not_found
    else rest

abbrev pub checked : Result (Unit {0}) → ℕ × Bytes → Result (ℕ × Bytes)
checked (ok u) p = ok p
checked (raise e) p = raise e

-- parse_id, with the place of the first '-'
abbrev pub parse_at : Option ℕ → Bytes → Result (ℕ × Bytes)
parse_at none id = raise object_not_found
parse_at (some pos) id =
    if is_empty (drop (pos + 1) id)
    then raise object_not_found
    else checked (check_color (drop (pos + 1) id)) (from_string (take pos id), drop (pos + 1) id)

unfoldable pub parse_id : Bytes → Result (ℕ × Bytes)
unfolding check_color
parse_id id = parse_at (find (b'-' ∷ []) id) id

pub data ImageType : Type 0 where
  big preview : ImageType

abbrev pub prefix_of : ImageType → Bytes
prefix_of big = codes "big_"
prefix_of preview = codes "preview_"

unfoldable pub image_path : ImageType → ℕ → Bytes
image_path image_type num = prefix_of image_type ++ (to_string num ++ codes ".jpg")

-- The labels of the switch; another value adds nothing.
abbrev pub label : ℕ → Bytes
label size =
    if size == 8
    then codes "38-40"
    else if size == 16
    then codes "42-44"
    else if size == 32
    then codes "44-46"
    else if size == 64
    then codes "46-48"
    else if size == 128
    then codes "48-50"
    else if size == 256
    then codes "50-52"
    else if size == 512
    then codes "52-54"
    else []

-- `(sizes & size) != 0` for a power of two
abbrev pub has_bit : ℕ → ℕ → Bool
has_bit sizes size = (sizes / size) % 2 == 1

abbrev pub comma : Bytes → Bytes
comma result = if is_empty result then result else result ++ codes ", "

-- The loop from `size` on, which doubles it up to Size_XXL, on fuel.
unfoldable pub size_loop : ℕ → ℕ → ℕ → Bytes → Bytes
size_loop zero size sizes result = result
size_loop (suc f) size sizes result = elim (leb size 256) [
  | true ↦
      size_loop f (size * 2) sizes
        (if has_bit sizes size then comma result ++ label size else result)
  | false ↦ result
]

unfoldable pub size_to_string : ℕ → Bytes
unfolding size_loop
size_to_string sizes = size_loop 7 8 sizes []
