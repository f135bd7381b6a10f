-- ===== src/Text/Tests.antt =====
-- Memories with text in them, and the theorems at them.
use project4final.Text.Moves.{memmove_copies}
use project4final.Text.Compare.{IsBytes}
use project4final.Text.Strings.{StringAt}
use project4final.Text.Memory.{Memory, memmove}
use project4final.Prelude.{ℕ, ◌+◌, [], ◌∷◌, refl, List, arith, ◌≡◌, if◌then◌else◌, ◌==◌, ◌||◌}

-- "hey" at address 100 and at address 200.
abbrev greeting : Memory
greeting x =
    if x == 100 || x == 200
    then b'h'
    else if x == 101 || x == 201
    then b'e'
    else if x == 102 || x == 202
    then b'y'
    else 0

abbrev hey : List ℕ
hey = b'h' ∷ b'e' ∷ b'y' ∷ []

hey-StringAt : StringAt greeting 100 hey
hey-StringAt =
    (refl, (λ e. omega arith), (refl, (λ e. omega arith), (refl, (λ e. omega arith), refl)))

hey-StringAt_again : StringAt greeting 200 hey
hey-StringAt_again =
    (refl, (λ e. omega arith), (refl, (λ e. omega arith), (refl, (λ e. omega arith), refl)))

greeting-IsBytes : IsBytes greeting
greeting-IsBytes x = ground arith

-- Three bytes moved up by one, over themselves.
memmove_copies_example : memmove greeting 101 100 3 (101 + 2) ≡ b'y'
memmove_copies_example = (memmove_copies greeting 101 100 3).0 2 (omega arith)
