-- ===== src/Text/Strings.antt =====
-- The string functions of string.c and ulib.c. A loop that runs to a NUL takes rounds of fuel, and `none` means that
-- they ran out; a length that is not positive is 0.
use project4final.Text.Memory.{Memory, byte_diff}
use project4final.Prelude.{
  zero, suc, ℕ, ◌+◌, ◌-◌, ◌*◌, ◌%◌, ◌^◌, none, some, Option, update, List, if◌then◌else◌, ◌==◌, not,
  leb, ◌≡◌, ◌&&◌, ◌∷◌, ◌≢◌, [],
}

-- strlen, of string.c and of ulib.c: `n` characters have been seen.
unfoldable pub strlen_from : ℕ → Memory → ℕ → ℕ → Option ℕ
strlen_from zero mem s n = none
strlen_from (suc f) mem s n =
    let rest : Option ℕ = strlen_from f mem s (n + 1) in if mem (s + n) == 0 then some n else rest

unfoldable pub strlen : ℕ → Memory → ℕ → Option ℕ
unfolding strlen_from
strlen f mem s = strlen_from f mem s 0

unfoldable pub strncmp : Memory → ℕ → ℕ → ℕ → ℕ
strncmp mem p q zero = 0
strncmp mem p q (suc n) =
    let rest : ℕ = strncmp mem (p + 1) (q + 1) n in
    if not (mem p == 0) && mem p == mem q then rest else byte_diff (mem p) (mem q)

-- strcmp of ulib.c.
unfoldable pub strcmp : ℕ → Memory → ℕ → ℕ → Option ℕ
strcmp zero mem p q = none
strcmp (suc f) mem p q =
    let rest : Option ℕ = strcmp f mem (p + 1) (q + 1) in
    if not (mem p == 0) && mem p == mem q then rest else some (byte_diff (mem p) (mem q))

-- `while(n-- > 0) *s++ = 0;`
unfoldable pub zero_fill : Memory → ℕ → ℕ → Memory
zero_fill mem s zero = mem
zero_fill mem s (suc n) = zero_fill (update mem s 0) (s + 1) n

unfoldable pub strncpy : Memory → ℕ → ℕ → ℕ → Memory
unfolding zero_fill
strncpy mem s t zero = mem
strncpy mem s t (suc n) =
    let rest : Memory = strncpy (update mem s (mem t)) (s + 1) (t + 1) n in
    let fill : Memory = zero_fill (update mem s (mem t)) (s + 1) n in
    if mem t == 0 then fill else rest

-- safestrcpy behind its test of `n`, with `n - 1` rounds; the last write is one behind a copied NUL.
unfoldable pub safe_copy : Memory → ℕ → ℕ → ℕ → Memory
safe_copy mem s t zero = update mem s 0
safe_copy mem s t (suc n) =
    let rest : Memory = safe_copy (update mem s (mem t)) (s + 1) (t + 1) n in
    if mem t == 0 then update (update mem s (mem t)) (s + 1) 0 else rest

unfoldable pub safestrcpy : Memory → ℕ → ℕ → ℕ → Memory
unfolding safe_copy
safestrcpy mem s t n = if n == 0 then mem else safe_copy mem s t (n - 1)

-- strcpy of ulib.c.
unfoldable pub strcpy : ℕ → Memory → ℕ → ℕ → Option Memory
strcpy zero mem s t = none
strcpy (suc f) mem s t =
    let rest : Option Memory = strcpy f (update mem s (mem t)) (s + 1) (t + 1) in
    if mem t == 0 then some (update mem s (mem t)) else rest

-- strchr of ulib.c: the address, or null.
unfoldable pub strchr : ℕ → Memory → ℕ → ℕ → Option ℕ
strchr zero mem s c = none
strchr (suc f) mem s c =
    let rest : Option ℕ = strchr f mem (s + 1) c in
    if mem s == 0 then some 0 else if mem s == c then some s else rest

-- atoi of ulib.c, over an int that wraps.
unfoldable pub atoi_from : ℕ → Memory → ℕ → ℕ → Option ℕ
atoi_from zero mem s n = none
atoi_from (suc f) mem s n =
    let rest : Option ℕ = atoi_from f mem (s + 1) ((n * 10 + mem s - b'0') % 2 ^ 32) in
    if leb b'0' (mem s) && leb (mem s) b'9' then rest else some n

unfoldable pub atoi : ℕ → Memory → ℕ → Option ℕ
unfolding atoi_from
atoi f mem s = atoi_from f mem s 0

-- The characters `xs`, none of them NUL, and a NUL stand from `s` on.
abbrev pub StringAt : Memory → ℕ → List ℕ → Type 0
StringAt mem s [] = mem s ≡ 0
StringAt mem s (x ∷ xs) = (mem s ≡ x) × (x ≢ 0) × StringAt mem (s + 1) xs
