-- ===== src/Grep/Tests.antt =====
-- Runs of the matcher, and the theorems at them.
use project4final.Grep.Meaning.{match_iff, Matches}
use project4final.Grep.Matcher.{match}
use project4final.Prelude.{[], ◌∷◌, List, ℕ, true, false, refl, ◌↔◌, ◌≡◌}

-- `a*.$`
abbrev pattern_of_tests : List ℕ
pattern_of_tests = b'a' ∷ b'*' ∷ b'.' ∷ b'$' ∷ []

-- "caab"
abbrev line : List ℕ
line = b'c' ∷ b'a' ∷ b'a' ∷ b'b' ∷ []

match-line : match pattern_of_tests line ≡ true
unfolding match
match-line = refl

match_anchored : match (b'^' ∷ pattern_of_tests) line ≡ false
unfolding match
match_anchored = refl

match_iff_example : (match pattern_of_tests line ≡ true) ↔ Matches pattern_of_tests line
match_iff_example = match_iff pattern_of_tests line
