-- ===== src/Pages/Sizes.antt =====
-- `size_to_string` of src/model.cpp: the labels of the sizes that are set.
use simurga.Base.{
  ◌≢◌, All, sym, ◌∙◌, Bool-cases, inl, inr, ap, ℕ, ◌%◌, ◌≡◌, refl, List, [], ◌∷◌, ◌++◌, ◌==◌,
  if◌then◌else◌, Bytes, codes, arith, append_assoc,
}
use simurga.Pages.Model.{has_bit, label, comma, size_to_string}
use simurga.Template.Rendering.{join}

-- The labels of those of the given sizes whose bit is set.
abbrev pub chosen : ℕ → List ℕ → List Bytes
chosen sizes [] = []
chosen sizes (b ∷ bs) =
    let rest = chosen sizes bs in if has_bit sizes b then label b ∷ rest else rest

abbrev pub shown_sizes : List ℕ
shown_sizes = 8 ∷ 16 ∷ 32 ∷ 64 ∷ 128 ∷ 256 ∷ []

-- Labels behind a text that is there already.
abbrev joined_onto : Bytes → List Bytes → Bytes
joined_onto s [] = s
joined_onto s (l ∷ ls) = joined_onto (comma s ++ l) ls

abbrev add_sizes : ℕ → List ℕ → Bytes → Bytes
add_sizes sizes [] r = r
add_sizes sizes (b ∷ bs) r = add_sizes sizes bs (if has_bit sizes b then comma r ++ label b else r)

size_to_string-add_sizes : (sizes : ℕ) → size_to_string sizes ≡ add_sizes sizes shown_sizes []
unfolding size_to_string
size_to_string-add_sizes sizes = refl

add_sizes-chosen :
    (sizes : ℕ) (bs : List ℕ) (r : Bytes) → add_sizes sizes bs r ≡ joined_onto r (chosen sizes bs)
add_sizes-chosen sizes [] r = refl
add_sizes-chosen sizes (b ∷ bs) r =
    ground (arith, add_sizes-chosen sizes bs (comma r ++ label b), add_sizes-chosen sizes bs r)

join-append :
    (sep a b : Bytes) (ls : List Bytes) → join sep ((a ++ b) ∷ ls) ≡ a ++ join sep (b ∷ ls)
join-append sep a b [] = refl
join-append sep a b (l ∷ ls) = append_assoc a b (sep ++ join sep (l ∷ ls))

joined_onto-join :
    (c : ℕ) (s : Bytes) (ls : List Bytes)
    → joined_onto (c ∷ s) ls ≡ join (codes ", ") ((c ∷ s) ∷ ls)
joined_onto-join c s [] = refl
joined_onto-join c s (l ∷ ls) =
    joined_onto-join c ((s ++ codes ", ") ++ l) ls
    ∙ join-append (codes ", ") (c ∷ (s ++ codes ", ")) l ls
    ∙ append_assoc (c ∷ s) (codes ", ") (join (codes ", ") (l ∷ ls))

joined_onto-nil :
    (ls : List Bytes) → All (λ l. l ≢ []) ls → joined_onto [] ls ≡ join (codes ", ") ls
joined_onto-nil [] h = refl
joined_onto-nil ([] ∷ ls) h = absurd (h.0 refl)
joined_onto-nil ((c ∷ l) ∷ ls) h = joined_onto-join c l ls

chosen-named :
    (sizes : ℕ) (bs : List ℕ) → All (λ b. label b ≢ []) bs → All (λ l. l ≢ []) (chosen sizes bs)
chosen-named sizes [] h = tt
chosen-named sizes (b ∷ bs) h = elim (Bool-cases (has_bit sizes b)) [
  | inl e ↦ rw e (h.0, chosen-named sizes bs h.1)
  | inr e ↦ rw e (chosen-named sizes bs h.1)
]

-- size_to_string is the join by ", " of the labels XS to XXL whose bits are set.
pub size_to_string-join :
    (sizes : ℕ) → size_to_string sizes ≡ join (codes ", ") (chosen sizes shown_sizes)
size_to_string-join sizes =
    size_to_string-add_sizes sizes
    ∙ add_sizes-chosen sizes shown_sizes []
    ∙ joined_onto-nil (chosen sizes shown_sizes) (chosen-named sizes shown_sizes labels_named)
  where
    labels_named : All (λ b. label b ≢ []) shown_sizes
    labels_named = ((λ p. cc), ((λ p. cc), ((λ p. cc), ((λ p. cc), ((λ p. cc), ((λ p. cc), tt))))))

chosen-same :
    (s t : ℕ) (bs : List ℕ) → All (λ b. has_bit s b ≡ has_bit t b) bs → chosen s bs ≡ chosen t bs
chosen-same s t [] h = refl
chosen-same s t (b ∷ bs) h = rw (h.0, chosen-same s t bs h.1)

-- The bit of XXXL and those above it have no effect on the text.
size_to_string-mod : (sizes : ℕ) → size_to_string sizes ≡ size_to_string (sizes % 512)
size_to_string-mod sizes =
    size_to_string-join sizes
    ∙ ap (join (codes ", ")) (chosen-same sizes (sizes % 512) shown_sizes bits)
    ∙ sym (size_to_string-join (sizes % 512))
  where
    same_bit : (a b : ℕ) → a ≡ b → (a == 1) ≡ (b == 1)
    same_bit a b e = ap (λ x. x == 1) e

    bits : All (λ b. has_bit sizes b ≡ has_bit (sizes % 512) b) shown_sizes
    bits = (
      same_bit _ _ (omega arith),
      (
        same_bit _ _ (omega arith),
        (
          same_bit _ _ (omega arith),
          (
            same_bit _ _ (omega arith),
            (same_bit _ _ (omega arith), (same_bit _ _ (omega arith), tt)),
          ),
        ),
      ),
    )
