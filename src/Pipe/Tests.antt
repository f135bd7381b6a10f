-- ===== src/Pipe/Tests.antt =====
-- A pipe whose counters are about to wrap, and the theorems at it.
use project4final.Pipe.Order.{
  Session, read_turn, write_turn, stream, Turns-stream, next, here, writes, reads,
}
use project4final.Pipe.Contents.{IsValid, contents}
use project4final.Pipe.Ring.{Pipe}
use project4final.Prelude.{[], ◌∷◌, ◌^◌, true, false, refl, update, arith, ◌≡◌, ◌-◌}

-- Two bytes, 8 and 9, round the end of the counters.
abbrev wrapped : Pipe
wrapped = record {
  buf = update (λ _. 8) 0 9;
  nread = 2 ^ 32 - 1;
  nwrite = 1;
  readopen = true;
  writeopen = true;
}

wrapped-IsValid : IsValid wrapped
wrapped-IsValid = omega arith

contents-wrapped : contents wrapped ≡ 8 ∷ 9 ∷ []
contents-wrapped = refl

abbrev session : Session
session = record { pipe = wrapped; pending = 4 ∷ 5 ∷ []; got = [] }

Turns-stream_example :
    let t = read_turn (write_turn session false) false 3 in
    IsValid t.pipe × (stream t ≡ 8 ∷ 9 ∷ 4 ∷ 5 ∷ [])
Turns-stream_example =
    Turns-stream
      (next (next here (writes session false)) (reads (write_turn session false) false 3))
      wrapped-IsValid
