-- ===== src/Controller/Providers/Tests.antt =====
-- Lines of two and of four providers.
use thesis_data.Common.{◌≡◌, refl, [], ◌∷◌, arith, ok, fault, out_of_bounds}
use thesis_data.Controller.Providers.{
  Entry, provider_of, line, AreWords, parse_providers, parse_providers-line,
}

-- `isp ::/64 via a`
abbrev entry : Entry
entry = record {
  name = 105 ∷ 115 ∷ 112 ∷ [];
  addr = 58 ∷ 58 ∷ [];
  len = 54 ∷ 52 ∷ [];
  via = 118 ∷ 105 ∷ 97 ∷ [];
  router = 97 ∷ [];
}

entry-AreWords : AreWords entry
entry-AreWords = (
  (refl, (refl, (refl, tt))),
  (refl, (refl, tt)),
  (refl, (refl, tt)),
  (refl, (refl, (refl, tt))),
  (refl, tt),
)

parse_providers-line_example :
    parse_providers (line entry (entry ∷ [])) ≡ ok (provider_of entry ∷ provider_of entry ∷ [])
parse_providers-line_example =
    parse_providers-line entry (entry ∷ []) (entry-AreWords, (entry-AreWords, tt)) (omega arith)

four_providers : parse_providers (line entry (entry ∷ entry ∷ entry ∷ [])) ≡ fault out_of_bounds
four_providers =
    parse_providers-line entry (entry ∷ entry ∷ entry ∷ [])
      (entry-AreWords, (entry-AreWords, (entry-AreWords, (entry-AreWords, tt)))) (omega arith)
