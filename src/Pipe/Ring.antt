-- ===== src/Pipe/Ring.antt =====
-- The operations of pipe.c, each from where its process gets the lock to where it sleeps or returns. What
-- wakes the other side is said at each end of a call.
use project4final.Prelude.{
  zero, suc, [], ◌∷◌, ℕ, ◌+◌, ◌%◌, ◌^◌, true, false, Bool, update, List, if◌then◌else◌, ◌==◌, not,
  ◌&&◌, ◌||◌,
}

abbrev pub pipe_size : ℕ
pipe_size = 512

-- struct pipe. `nread` and `nwrite` are uints that wrap; a byte is a number.
pub record Pipe : Type 0 where
  pub buf : ℕ → ℕ
  pub nread : ℕ
  pub nwrite : ℕ
  pub readopen : Bool
  pub writeopen : Bool

abbrev pub uint_add : ℕ → ℕ → ℕ
uint_add a b = (a + b) % 2 ^ 32

-- What pipealloc makes of the page; what the page holds is arbitrary.
unfoldable pub init : (ℕ → ℕ) → Pipe
init junk = record { buf = junk; nread = 0; nwrite = 0; readopen = true; writeopen = true }

-- pipeclose: the pipe, and whether its page is freed. It wakes the side that is still open.
unfoldable pub pipeclose : Pipe → Bool → Pipe × Bool
pipeclose p writable =
    let p' = if writable then record p { writeopen = false } else record p { readopen = false } in
    (p', not p'.readopen && not p'.writeopen)

-- `p->nwrite == p->nread + PIPESIZE`.
abbrev pub is_full : Pipe → Bool
is_full p = p.nwrite == uint_add p.nread pipe_size

abbrev pub is_empty : Pipe → Bool
is_empty p = p.nread == p.nwrite

-- `p->data[p->nwrite++ % PIPESIZE] = x`.
unfoldable pub put_byte : Pipe → ℕ → Pipe
put_byte p x = record p {
  buf = update p.buf (p.nwrite % pipe_size) x;
  nwrite = uint_add p.nwrite 1;
}

-- How a run of pipewrite ends: it has written everything and returns n, having woken the readers; it returns
-- -1 at a full pipe with no reader, or killed; or it wakes the readers and sleeps. The last two have bytes left.
pub data WriteEnd : Type 0 where
  finished : WriteEnd
  broken : List ℕ → WriteEnd
  blocked : List ℕ → WriteEnd

abbrev pub left_over : WriteEnd → List ℕ
left_over finished = []
left_over (broken xs) = xs
left_over (blocked xs) = xs

-- pipewrite, from `addr[i]` on. A process that was asleep goes on with the bytes that it had left.
unfoldable pub pipewrite : Pipe → Bool → List ℕ → Pipe × WriteEnd
pipewrite p killed [] = (p, finished)
pipewrite p killed (x ∷ xs) =
    let rest : Pipe × WriteEnd = pipewrite (put_byte p x) killed xs in
    if is_full p
    then if not p.readopen || killed then (p, broken (x ∷ xs)) else (p, blocked (x ∷ xs))
    else rest

-- How a run of piperead ends: with bytes, having woken the writers; with -1, killed; or asleep.
pub data ReadEnd : Type 0 where
  bytes : List ℕ → ReadEnd
  interrupted : ReadEnd
  waiting : ReadEnd

abbrev pub received : ReadEnd → List ℕ
received (bytes xs) = xs
received interrupted = []
received waiting = []

-- `p->nread++`.
unfoldable pub take_byte : Pipe → Pipe
take_byte p = record p { nread = uint_add p.nread 1 }

-- The loop of piperead that copies at most `n` bytes.
unfoldable pub copy_out : Pipe → ℕ → Pipe × List ℕ
copy_out p zero = (p, [])
copy_out p (suc n) =
    let rest : Pipe × List ℕ = copy_out (take_byte p) n in
    if is_empty p then (p, []) else (rest.0, p.buf (p.nread % pipe_size) ∷ rest.1)

unfoldable pub piperead : Pipe → Bool → ℕ → Pipe × ReadEnd
piperead p killed n =
    if is_empty p && p.writeopen
    then (if killed then (p, interrupted) else (p, waiting))
    else let (p', xs) = copy_out p n in (p', bytes xs)
