-- ===== src/Rules/Word.antt =====
-- The keywords of the rules, as bytes.
use thesis_data.Common.{ℕ, List, [], ◌∷◌}

abbrev pub default : List ℕ
default = 100 ∷ 101 ∷ 102 ∷ 97 ∷ 117 ∷ 108 ∷ 116 ∷ []

abbrev pub allow : List ℕ
allow = 97 ∷ 108 ∷ 108 ∷ 111 ∷ 119 ∷ []

abbrev pub deny : List ℕ
deny = 100 ∷ 101 ∷ 110 ∷ 121 ∷ []

abbrev pub from : List ℕ
from = 102 ∷ 114 ∷ 111 ∷ 109 ∷ []

abbrev pub to : List ℕ
to = 116 ∷ 111 ∷ []

abbrev pub via : List ℕ
via = 118 ∷ 105 ∷ 97 ∷ []

abbrev pub last : List ℕ
last = 108 ∷ 97 ∷ 115 ∷ 116 ∷ []

abbrev pub bw : List ℕ
bw = 98 ∷ 119 ∷ []

abbrev pub delay : List ℕ
delay = 100 ∷ 101 ∷ 108 ∷ 97 ∷ 121 ∷ []

abbrev pub ttl : List ℕ
ttl = 116 ∷ 116 ∷ 108 ∷ []

abbrev pub idle : List ℕ
idle = 105 ∷ 100 ∷ 108 ∷ 101 ∷ []
