-- ===== src/Console/Tests.antt =====
-- An empty input whose indices are about to wrap, and the theorems at it.
use project4final.Console.Reading.{typed_line_read}
use project4final.Console.Typing.{consoleintr_types, typed_all}
use project4final.Console.Lines.{Shows}
use project4final.Console.Input.{Input, Effect, consoleintr, consoleread, newline, ctrl, returned}
use project4final.Prelude.{
  ℕ, ◌^◌, [], List, false, if◌then◌else◌, ◌-◌, arith, ◌∷◌, ◌≡◌, Bool, ◌==◌, ok, refl,
}

abbrev input : Input
input = record { buf = λ i. 0; r = 2 ^ 32 - 2; w = 2 ^ 32 - 2; e = 2 ^ 32 - 2 }

input-Shows : Shows input [] []
input-Shows = record {
  r_word = omega arith;
  w_at = refl;
  e_at = refl;
  room = omega arith;
  ready_at = tt;
  edit_at = tt;
  one_line = tt;
}

-- "ls", with a wrong letter erased.
abbrev keys : List ℕ
keys = b'l' ∷ b'x' ∷ ctrl b'H' ∷ b's' ∷ 13 ∷ []

typed_all-keys : typed_all ([], []) keys ≡ (b'l' ∷ b's' ∷ newline ∷ [], [])
unfolding typed_all project4final.Console.Typed.typed project4final.Console.Lines.drop_last
typed_all-keys = refl

consoleintr_types_example :
    (q : Input) × (effects : List Effect) × (dump' : Bool) × (consoleintr input false keys
      ≡ ok (q, effects, dump'))
    × Shows q (typed_all ([], []) keys).0 (typed_all ([], []) keys).1
consoleintr_types_example = consoleintr_types input ([], []) false keys input-Shows

-- An input with "ab", then an end of file.
abbrev ready_input : Input
ready_input = record {
  buf = λ i. if i == 126 then b'a' else if i == 127 then b'b' else 4;
  r = 2 ^ 32 - 2;
  w = 1;
  e = 1;
}

abbrev ready_keys : List ℕ
ready_keys = b'a' ∷ b'b' ∷ 4 ∷ []

ready_input-Shows : Shows ready_input ready_keys []
ready_input-Shows = record {
  r_word = omega arith;
  w_at = refl;
  e_at = refl;
  room = omega arith;
  ready_at = (refl, (refl, (refl, tt)));
  edit_at = tt;
  one_line = tt;
}

typed_line_read_example :
    (q : Input) × (effects : List Effect) × (dump' : Bool) × (consoleintr input false
        (b'l' ∷ b's' ∷ newline ∷ [])
      ≡ ok (q, effects, dump'))
    × ((consoleread 100 false false q).1 ≡ returned (b'l' ∷ b's' ∷ newline ∷ []))
    × Shows (consoleread 100 false false q).0 [] []
typed_line_read_example =
    typed_line_read input false false (b'l' ∷ b's' ∷ []) 100 input-Shows
      ((omega arith, omega arith), ((omega arith, omega arith), tt)) (omega arith) (omega arith)
