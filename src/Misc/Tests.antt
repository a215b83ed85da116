-- ===== src/Misc/Tests.antt =====
-- The theorems of the text helpers at short lines.
use thesis_data.Common.{
  ℕ, suc, ◌≡◌, ◌≢◌, ◌⊎◌, refl, List, [], ◌∷◌, ◌++◌, length, replicate, ok, fault, out_of_bounds,
  Returns,
}
use thesis_data.Misc.{
  space, before, behind, count, pieces, trim_from, remove_trail, strsplit, strreplace,
}
use thesis_data.Misc.Split.{AllFree, join, remove_trail-cases, strsplit-join}

-- "a b  "
abbrev line : List ℕ
line = 97 ∷ 32 ∷ 98 ∷ 32 ∷ 32 ∷ []

abbrev trimmed : List ℕ
trimmed = 97 ∷ 32 ∷ 98 ∷ []

trimmed_run : remove_trail line ≡ ok trimmed
unfolding remove_trail trim_from
trimmed_run = refl

split_run : strsplit line 32 ≡ ok ((97 ∷ []) ∷ (98 ∷ []) ∷ [])
unfolding strsplit remove_trail trim_from count pieces before behind
split_run = refl

replaced_run : strreplace line 32 45 ≡ 97 ∷ 45 ∷ 98 ∷ 45 ∷ 45 ∷ []
unfolding strreplace
replaced_run = refl

blank_run : strsplit (32 ∷ []) 32 ≡ fault out_of_bounds
unfolding strsplit remove_trail trim_from
blank_run = refl

remove_trail-cases_example :
    ((remove_trail line ≡ fault out_of_bounds) × (n : ℕ) × (line ≡ replicate n space))
    ⊎ ((n x : ℕ) × (t : List ℕ) × (remove_trail line ≡ ok (t ++ (x ∷ [])))
        × (x ≢ space)
        × (line ≡ (t ++ (x ∷ [])) ++ replicate n space))
remove_trail-cases_example = remove_trail-cases 97 (32 ∷ 98 ∷ 32 ∷ 32 ∷ [])

strsplit-join_example :
    Returns
      (strsplit line 32)
      λ ps. (length ps ≡ suc (count 32 trimmed)) × AllFree 32 ps × (join 32 ps ≡ trimmed)
strsplit-join_example = strsplit-join line trimmed 32 trimmed_run
