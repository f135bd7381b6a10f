-- ===== src/Pipe/Order.antt =====
-- A writer and readers that take turns on a pipe, in any order.
use project4final.Pipe.Contents.{
  IsValid, pipewrite_appends, contents, piperead_takes, is_full-count,
}
use project4final.Pipe.Ring.{
  Pipe, pipewrite, piperead, left_over, received, is_full, is_empty, put_byte,
}
use mathlib.Core.List.{append_assoc}
use project4final.Prelude.{
  [], ◌∷◌, ℕ, true, false, refl, Bool, List, ◌≡◌, ◌∙◌, ap, ◌++◌, length, ◌≤◌, ◌<◌, arith, ne→==,
  ◌&&◌,
}

-- The pipe, the bytes that the writer has not put yet, and all bytes that readers have received, in order.
pub record Session : Type 0 where
  pub pipe : Pipe
  pub pending : List ℕ
  pub got : List ℕ

-- A run of the writer between two sleeps.
unfoldable pub write_turn : Session → Bool → Session
write_turn s killed =
    let (p, e) = pipewrite s.pipe killed s.pending in record s { pipe = p; pending = left_over e }

-- A run of a reader that asks for `n` bytes.
unfoldable pub read_turn : Session → Bool → ℕ → Session
read_turn s killed n =
    let (p, e) = piperead s.pipe killed n in record s { pipe = p; got = s.got ++ received e }

pub data Turn : Session → Session → Type 0 where
  writes : (s : Session) (killed : Bool) → Turn s (write_turn s killed)
  reads : (s : Session) (killed : Bool) (n : ℕ) → Turn s (read_turn s killed n)

pub data Turns (s : Session) : Session → Type 0 where
  here : Turns s s
  next : {t u : Session} → Turns s t → Turn t u → Turns s u

-- The bytes received, those in the pipe and those to come, in this order.
abbrev pub stream : Session → List ℕ
stream s = s.got ++ (contents s.pipe ++ s.pending)

Turn-stream : {s t : Session} → Turn s t → IsValid s.pipe → IsValid t.pipe × (stream t ≡ stream s)
unfolding write_turn read_turn
Turn-stream (writes s killed) v =
    let (w, e, _, _, _) = pipewrite_appends s.pipe killed s.pending v in
    (w, ap (λ xs. s.got ++ xs) e)
Turn-stream (reads s killed n) v =
    let (w, e, _, _) = piperead_takes s.pipe killed n v in
    let (p, r) = piperead s.pipe killed n in (w, simp (e, append_assoc))

-- Whatever the order of the turns and the sizes of the reads, the pipe stays valid, and the bytes received, those
-- in the pipe and those still to be written are together the bytes of the start: no byte is lost, doubled or
-- out of order.
pub Turns-stream :
    {s t : Session} → Turns s t → IsValid s.pipe → IsValid t.pipe × (stream t ≡ stream s)
Turns-stream here v = (v, refl)
Turns-stream (next r step) v =
    let (w, e) = Turns-stream r v in let (w', e') = Turn-stream step w in (w', e' ∙ e)

left_over-le :
    (p : Pipe) (killed : Bool) (xs : List ℕ)
    → length (left_over (pipewrite p killed xs).1) ≤ length xs
unfolding pipewrite
left_over-le p killed [] = omega arith
left_over-le p killed (x ∷ xs) = ground (arith, left_over-le (put_byte p x) killed xs)

write_progress :
    (p : Pipe) (killed : Bool) (x : ℕ) (xs : List ℕ)
    → is_full p ≡ false
    → length (left_over (pipewrite p killed (x ∷ xs)).1) ≤ length xs
unfolding pipewrite
write_progress p killed x xs h = rw h (left_over-le (put_byte p x) killed xs)

full_not_empty : (p : Pipe) → IsValid p → is_full p ≡ true → is_empty p ≡ false
full_not_empty p v h = ne→== p.nread p.nwrite (λ e. omega (arith, is_full-count p v h))

-- A writer and a reader cannot both be stuck: at a valid pipe that is not full a writer with bytes left puts at
-- least one, and at a full one a reader that asks for at least one byte receives at least one.
pub pipe_progress :
    (p : Pipe) (killed : Bool)
    → IsValid p
    → (is_full p ≡ false
        → (x : ℕ) (xs : List ℕ)
        → length (left_over (pipewrite p killed (x ∷ xs)).1) < length (x ∷ xs))
      × (is_full p ≡ true → (n : ℕ) → 0 < n → 0 < length (received (piperead p killed n).1))
pipe_progress p killed v = (
  (λ h x xs. omega (arith, write_progress p killed x xs h)),
  λ h n l.
      let e : (is_empty p && p.writeopen) ≡ false =
        ap (λ b. b && p.writeopen) (full_not_empty p v h) in
      omega (arith, (piperead_takes p killed n v).2 e, is_full-count p v h),
)
