-- ===== src/Printf/Format.antt =====
-- printint and printf of printf.c, and cprintf of console.c, with the characters that they print as a list. `a` is the
-- digit for ten, which is b'A' in printf.c and b'a' in console.c; but for it, the two have the same printint. A format
-- is the characters in front of its NUL; `args` are the words on the stack from the first argument on.
use project4final.Text.Memory.{Memory}
use project4final.Prelude.{
  ℕ, List, Bool, Outcome, stop, ◌&&◌, [], ◌∷◌, ◌>>=◌, if◌then◌else◌, ltb, out_of_fuel, leb, ◌^◌, ok,
  ◌==◌, ◌+◌, ◌-◌, length, ◌++◌, true, suc, out_of_bounds, ◌%◌, ◌||◌, false, zero, ◌/◌,
}

-- The array `digits`.
abbrev pub digit : ℕ → ℕ → ℕ
digit a d = if ltb d 10 then b'0' + d else a + d - 10

-- `buf[i++] = c`, where `buf` has 16 bytes; the one written last is at the front.
abbrev pub put_digit : List ℕ → ℕ → Outcome (List ℕ)
put_digit buf c = if ltb (length buf) 16 then ok (c ∷ buf) else stop out_of_bounds

-- The do loop of printint, in rounds.
unfoldable pub digits_loop : ℕ → ℕ → ℕ → ℕ → List ℕ → Outcome (List ℕ)
digits_loop zero a base x buf = stop out_of_fuel
digits_loop (suc f) a base x buf = put_digit buf (digit a (x % base)) >>= λ b.
    let rest : Outcome (List ℕ) = digits_loop f a base (x / base) b in
    if x / base == 0 then ok b else rest

abbrev pub is_negative : Bool → ℕ → Bool
is_negative sgn xx = sgn && leb (2 ^ 31) xx

abbrev pub magnitude : Bool → ℕ → ℕ
magnitude sgn xx = if is_negative sgn xx then (2 ^ 32 - xx) % 2 ^ 32 else xx

unfoldable pub printint : ℕ → ℕ → ℕ → Bool → Outcome (List ℕ)
unfolding digits_loop
printint a xx base sgn = digits_loop 17 a base (magnitude sgn xx) [] >>= λ b.
    if is_negative sgn xx then put_digit b b'-' else ok b

-- The characters from `s` up to the NUL, in rounds.
unfoldable pub string_from : ℕ → Memory → ℕ → Outcome (List ℕ)
string_from zero mem s = stop out_of_fuel
string_from (suc f) mem s =
    let rest : Outcome (List ℕ) = string_from f mem (s + 1) in
    if mem s == 0 then ok [] else rest >>= λ cs. ok (mem s ∷ cs)

abbrev null_text : List ℕ
null_text = b'(' ∷ b'n' ∷ b'u' ∷ b'l' ∷ b'l' ∷ b')' ∷ []

-- What %s prints for a pointer, in both.
unfoldable pub string_of : ℕ → Memory → ℕ → Outcome (List ℕ)
unfolding string_from
string_of f mem s = if s == 0 then ok null_text else string_from f mem s

abbrev pub in_front : Outcome (List ℕ) → Outcome (List ℕ) → Outcome (List ℕ)
in_front o rest = o >>= λ cs. rest >>= λ ds. ok (cs ++ ds)

-- The body of printf's loop behind a %, at character `c`: what it prints, and whether it takes an argument.
unfoldable pub directive : ℕ → ℕ → Memory → ℕ → ℕ → Outcome (List ℕ) × Bool
unfolding printint string_of
directive f a mem c arg =
    if c == b'd'
    then (printint a arg 10 true, true)
    else if c == b'x' || c == b'p'
    then (printint a arg 16 false, true)
    else if c == b's'
    then (string_of f mem arg, true)
    else if c == b'c'
    then (ok (arg % 256 ∷ []), true)
    else if c == b'%'
    then (ok (c ∷ []), false)
    else (ok (b'%' ∷ c ∷ []), false)

abbrev pub advance : Bool → ℕ → ℕ
advance taken ap = if taken then ap + 1 else ap

-- The loop of printf, with whether `state` is '%', and the index of the next argument.
unfoldable pub printf : ℕ → ℕ → Memory → (ℕ → ℕ) → Bool → ℕ → List ℕ → Outcome (List ℕ)
unfolding directive
printf f a mem args percent ap [] = ok []
printf f a mem args false ap (c ∷ fmt) =
    if c == b'%'
    then printf f a mem args true ap fmt
    else in_front (ok (c ∷ [])) (printf f a mem args false ap fmt)
printf f a mem args true ap (c ∷ fmt) =
    let d = directive f a mem c (args ap) in
    in_front d.0 (printf f a mem args false (advance d.1 ap) fmt)

-- The switch of cprintf.
unfoldable pub cprintf_case : ℕ → ℕ → Memory → ℕ → ℕ → Outcome (List ℕ) × Bool
unfolding printint string_of
cprintf_case f a mem c arg =
    if c == b'd'
    then (printint a arg 10 true, true)
    else if c == b'x' || c == b'p'
    then (printint a arg 16 false, true)
    else if c == b's'
    then (string_of f mem arg, true)
    else if c == b'%'
    then (ok (b'%' ∷ []), false)
    else (ok (b'%' ∷ c ∷ []), false)

-- cprintf, with the index of the next argument.
unfoldable pub cprintf : ℕ → ℕ → Memory → (ℕ → ℕ) → ℕ → List ℕ → Outcome (List ℕ)
unfolding cprintf_case
cprintf f a mem args ap [] = ok []
cprintf f a mem args ap (c ∷ []) = if c == b'%' then ok [] else ok (c ∷ [])
cprintf f a mem args ap (c ∷ c' ∷ fmt) =
    let d = cprintf_case f a mem c' (args ap) in
    let behind : Outcome (List ℕ) = cprintf f a mem args (advance d.1 ap) fmt in
    let plain : Outcome (List ℕ) = cprintf f a mem args ap (c' ∷ fmt) in
    if c == b'%' then in_front d.0 behind else in_front (ok (c ∷ [])) plain
