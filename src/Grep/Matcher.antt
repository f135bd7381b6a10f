-- ===== src/Grep/Matcher.antt =====
-- match, matchhere and matchstar of grep.c.
use project4final.Prelude.{ℕ, [], ◌∷◌, true, false, Bool, List, ◌==◌, if◌then◌else◌, ◌||◌}

-- `re[0]=='.' || re[0]==*text`.
abbrev pub fits : ℕ → ℕ → Bool
fits c x = c == b'.' || c == x

-- matchstar, with `here` for matchhere at the rest of the pattern.
unfoldable pub matchstar : ℕ → (List ℕ → Bool) → List ℕ → Bool
matchstar c here [] = here []
matchstar c here (x ∷ text) =
    let rest : Bool = matchstar c here text in
    if here (x ∷ text) then true else if x == c || c == b'.' then rest else false

-- The last test of matchhere.
unfoldable pub matchone : ℕ → (List ℕ → Bool) → List ℕ → Bool
matchone c here [] = false
matchone c here (x ∷ text) = if fits c x then here text else false

abbrev pub at_nul : List ℕ → Bool
at_nul [] = true
at_nul (x ∷ text) = false

unfoldable pub matchhere : List ℕ → List ℕ → Bool
unfolding matchstar matchone
matchhere [] text = true
matchhere (c ∷ []) text = if c == b'$' then at_nul text else matchone c (λ _. true) text
matchhere (c ∷ d ∷ re) text =
    let starred : Bool = matchstar c (matchhere re) text in
    let plain : Bool = matchone c (matchhere (d ∷ re)) text in if d == b'*' then starred else plain

-- The loop of match: at each place of the text, the empty one at its end included.
unfoldable pub match_from : List ℕ → List ℕ → Bool
match_from re [] = matchhere re []
match_from re (x ∷ text) =
    let rest : Bool = match_from re text in if matchhere re (x ∷ text) then true else rest

unfoldable pub match : List ℕ → List ℕ → Bool
unfolding match_from matchhere
match [] text = match_from [] text
match (c ∷ re) text = if c == b'^' then matchhere re text else match_from (c ∷ re) text
