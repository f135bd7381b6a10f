-- ===== src/Console/Input.antt =====
-- The input buffer of console.c: consoleintr and consoleread. A character is a byte.
use project4final.Prelude.{
  ℕ, ◌-◌, ◌+◌, Outcome, List, update, Bool, ◌∷◌, if◌then◌else◌, ◌^◌, stop, ◌==◌, ◌%◌, [], not, ok,
  out_of_fuel, ◌||◌, ◌&&◌, suc, true, ◌>>=◌, ltb, zero, ◌++◌,
}

abbrev pub input_size : ℕ
input_size = 128

-- The struct input; the three indices are uints that wrap.
pub record Input : Type 0 where
  pub buf : ℕ → ℕ
  pub r : ℕ
  pub w : ℕ
  pub e : ℕ

-- `C(x)`.
abbrev pub ctrl : ℕ → ℕ
ctrl x = x - b'@'

abbrev pub newline : ℕ
newline = 10

-- What consoleintr does besides: it echoes a character, erases one on the screen, or wakes the readers.
pub data Effect : Type 0 where
  echo : ℕ → Effect
  erase wake : Effect

-- `input.e--`.
unfoldable pub back : Input → Input
back p = record p { e = (p.e + 2 ^ 32 - 1) % 2 ^ 32 }

-- The loop of C('U'), in rounds.
unfoldable pub kill_line : ℕ → Input → Outcome (Input × List Effect)
unfolding back
kill_line zero p = stop out_of_fuel
kill_line (suc f) p =
    let rest : Outcome (Input × List Effect) = kill_line f (back p) in
    if p.e == p.w || p.buf ((back p).e % input_size) == newline
    then ok (p, [])
    else rest >>= λ q. ok (q.0, erase ∷ q.1)

unfoldable pub backspace : Input → Input × List Effect
backspace p = if p.e == p.w then (p, []) else (back p, erase ∷ [])

abbrev pub carriage : ℕ → ℕ
carriage c = if c == 13 then newline else c

abbrev pub put_char : Input → ℕ → Input
put_char p c = record p { buf = update p.buf (p.e % input_size) c; e = (p.e + 1) % 2 ^ 32 }

-- The test that makes a line ready for the readers.
abbrev pub ends_line : Input → ℕ → Bool
ends_line p c = c == newline || c == ctrl b'D' || p.e == (p.r + input_size) % 2 ^ 32

-- The default case, at `c` after the change of a carriage return.
abbrev pub store : Input → ℕ → Input × List Effect
store p c =
    let p' = put_char p c in
    if ends_line p' c then (record p' { w = p'.e }, echo c ∷ wake ∷ []) else (p', echo c ∷ [])

abbrev pub default_case : Input → ℕ → Input × List Effect
default_case p c =
    if not (c == 0) && ltb ((p.e + 2 ^ 32 - p.r) % 2 ^ 32) input_size
    then store p (carriage c)
    else (p, [])

-- The switch of consoleintr, but for C('P').
unfoldable pub consoleintr_case : Input → ℕ → Outcome (Input × List Effect)
unfolding kill_line backspace
consoleintr_case p c =
    if c == ctrl b'U'
    then kill_line (suc input_size) p
    else if c == ctrl b'H' || c == 127
    then ok (backspace p)
    else ok (default_case p c)

-- consoleintr on the characters that getc gives, and whether procdump is called at its end.
unfoldable pub consoleintr : Input → Bool → List ℕ → Outcome (Input × List Effect × Bool)
unfolding consoleintr_case
consoleintr p doprocdump [] = ok (p, [], doprocdump)
consoleintr p doprocdump (c ∷ cs) =
    let listed : Outcome (Input × List Effect × Bool) = consoleintr p true cs in
    if c == ctrl b'P'
    then listed
    else consoleintr_case p c >>= λ q.
        consoleintr q.0 doprocdump cs >>= λ t. ok (t.0, q.1 ++ t.1, t.2)

-- How a run of consoleread ends, with the characters copied in it: it returns, it fails killed, or it sleeps.
pub data ReadEnd : Type 0 where
  returned interrupted waiting : List ℕ → ReadEnd

abbrev pub copied : ℕ → ReadEnd → ReadEnd
copied c (returned xs) = returned (c ∷ xs)
copied c (interrupted xs) = interrupted (c ∷ xs)
copied c (waiting xs) = waiting (c ∷ xs)

abbrev pub take_char : Input → Input
take_char p = record p { r = (p.r + 1) % 2 ^ 32 }

abbrev pub put_back : Input → Input
put_back p = record p { r = (p.r + 2 ^ 32 - 1) % 2 ^ 32 }

-- consoleread with `n` characters left to read, of which it has copied some if `begun`.
unfoldable pub consoleread : ℕ → Bool → Bool → Input → Input × ReadEnd
consoleread zero begun killed p = (p, returned [])
consoleread (suc n) begun killed p =
    let c : ℕ = p.buf (p.r % input_size) in
    let rest : Input × ReadEnd = consoleread n true killed (take_char p) in
    if p.r == p.w
    then (p, if killed then interrupted [] else waiting [])
    else if c == ctrl b'D'
    then (if begun then put_back (take_char p) else take_char p, returned [])
    else if c == newline
    then (take_char p, returned (c ∷ []))
    else (rest.0, copied c rest.1)
