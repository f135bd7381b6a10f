-- ===== src/Printf/Tests.antt =====
-- Numbers and a format as printf.c prints them.
use project4final.Printf.Directives.{printf-cprintf}
use project4final.Printf.Numbers.{atoi-printint, number, printint_prints}
use project4final.Text.Strings.{StringAt, atoi}
use project4final.Text.Memory.{Memory}
use project4final.Printf.Format.{printint, printf, cprintf}
use project4final.Prelude.{
  ℕ, List, ◌^◌, true, update, ◌∷◌, ◌≡◌, false, ◌-◌, ok, [], some, length, arith, refl, ◌≤◌, inl,
}

abbrev minus_forty_two : ℕ
minus_forty_two = 2 ^ 32 - 42

printint_forty_two : printint b'A' minus_forty_two 10 true ≡ ok (b'-' ∷ b'4' ∷ b'2' ∷ [])
unfolding printint
printint_forty_two = refl

printint_prints_example :
    (digits : List ℕ) × (printint b'A' minus_forty_two 10 true ≡ ok (b'-' ∷ digits))
    × (length digits ≤ 10)
    × (number b'A' 10 0 digits ≡ 42)
printint_prints_example =
    printint_prints b'A' minus_forty_two 10 true (omega arith) (omega arith) (inl refl)

abbrev forty_two : Memory
forty_two = update (update (update (λ x. 0) 100 b'4') 101 b'2') 102 0

printed_forty_two : printint b'A' 42 10 true ≡ ok (b'4' ∷ b'2' ∷ [])
unfolding printint
printed_forty_two = refl

forty_two-StringAt : StringAt forty_two 100 (b'4' ∷ b'2' ∷ [])
forty_two-StringAt = (refl, omega arith, (refl, omega arith, refl))

atoi-printint_example : atoi 9 forty_two 100 ≡ some 42
atoi-printint_example =
    atoi-printint 9 b'A' 42 100 forty_two (b'4' ∷ b'2' ∷ []) (omega arith) (omega arith)
      printed_forty_two forty_two-StringAt (omega arith)

-- The format "n=%d\n".
abbrev format : List ℕ
format = b'n' ∷ b'=' ∷ b'%' ∷ b'd' ∷ b'\n' ∷ []

printf-format :
    printf 9 b'A' forty_two (λ i. 42) false 0 format ≡ ok (b'n' ∷ b'=' ∷ b'4' ∷ b'2' ∷ b'\n' ∷ [])
unfolding printf printint
printf-format = refl

printf-cprintf_example :
    printf 9 b'A' forty_two (λ i. 42) false 0 format ≡ cprintf 9 b'A' forty_two (λ i. 42) 0 format
printf-cprintf_example = printf-cprintf 9 b'A' forty_two (λ i. 42) format refl
