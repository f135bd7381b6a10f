-- ===== src/Pipe/Contents.antt =====
-- The bytes in a pipe, oldest first, and what writing and reading do to them.
use project4final.Pipe.Ring.{
  Pipe, pipe_size, uint_add, is_full, is_empty, put_byte, take_byte, pipewrite, copy_out, left_over,
  finished, broken, blocked, piperead, received, interrupted, waiting, ReadEnd,
}
use Prim.Native.Nat.{min}
use mathlib.Core.List.{append_assoc}
use project4final.Prelude.{
  zero, suc, [], ◌∷◌, ℕ, ◌+◌, ◌%◌, ◌^◌, true, false, refl, inl, inr, List, length, ◌<◌, ◌-◌, ◌≤◌,
  ◌≡◌, ap, update, ◌++◌, arith, update_self, ap₂, update_ne, ==→eq, ==-false, Bool, ◌∙◌,
  if◌then◌else◌, Bool-cases, ◌⊎◌, not, ◌||◌, sym, ◌&&◌,
}

-- The `n` bytes from counter `h` on.
abbrev pub window : (ℕ → ℕ) → ℕ → ℕ → List ℕ
window buf h zero = []
window buf h (suc n) = buf (h % pipe_size) ∷ window buf (uint_add h 1) n

-- How many bytes the pipe holds, with the counters' wrap.
abbrev pub count : Pipe → ℕ
count p = (p.nwrite + 2 ^ 32 - p.nread) % 2 ^ 32

abbrev pub contents : Pipe → List ℕ
contents p = window p.buf p.nread (count p)

pub record IsValid (p : Pipe) : Type 0 where
  pub nread_word : p.nread < 2 ^ 32
  pub nwrite_word : p.nwrite < 2 ^ 32
  pub fits : count p ≤ pipe_size

length-window : (buf : ℕ → ℕ) (h n : ℕ) → length (window buf h n) ≡ n
length-window buf h zero = refl
length-window buf h (suc n) = ap suc (length-window buf (uint_add h 1) n)

-- A write just past a window that is not as long as the ring extends it.
window-update :
    (buf : ℕ → ℕ) (x n h w : ℕ)
    → h < 2 ^ 32
    → n < pipe_size
    → w ≡ uint_add h n
    → window (update buf (w % pipe_size) x) h (suc n) ≡ window buf h n ++ (x ∷ [])
window-update buf x zero h w hw hn e = ap₂ ◌∷◌ (at_end) refl
  where
    at_end : update buf (w % pipe_size) x (h % pipe_size) ≡ x
    at_end =
        rw (show (h % pipe_size) (w % pipe_size) (omega arith)) (update_self buf (w % pipe_size) x)
      where
        show : (a b : ℕ) → a ≡ b → a ≡ b
        show a b e = e
window-update buf x (suc n) h w hw hn e =
    ap₂ ◌∷◌ (update_ne buf (w % pipe_size) x (h % pipe_size) (λ q. omega arith))
      (window-update buf x n (uint_add h 1) w (omega arith) (omega arith) (omega arith))

count-lt : (p : Pipe) → IsValid p → is_full p ≡ false → count p < pipe_size
count-lt p v h = ground arith

pub is_full-count : (p : Pipe) → IsValid p → is_full p ≡ true → count p ≡ pipe_size
is_full-count p v h = omega (arith, ==→eq p.nwrite (uint_add p.nread pipe_size) h)

is_empty-count : (p : Pipe) → IsValid p → is_empty p ≡ true → count p ≡ 0
is_empty-count p v h = omega (arith, ==→eq p.nread p.nwrite h)

ne_empty-count : (p : Pipe) → IsValid p → is_empty p ≡ false → 0 < count p
ne_empty-count p v h = omega (arith, ==-false p.nread p.nwrite h)

module _ (p : Pipe) (v : IsValid p) where
  count-put_byte : (x : ℕ) → is_full p ≡ false → count (put_byte p x) ≡ suc (count p)
  unfolding put_byte
  count-put_byte x h = omega (arith, count-lt p v h)

  put_byte-IsValid : (x : ℕ) → is_full p ≡ false → IsValid (put_byte p x)
  put_byte-IsValid x h = record {
    nread_word = unfold put_byte in v.nread_word;
    nwrite_word = unfold put_byte in omega arith;
    fits = rw (count-put_byte x h) (count-lt p v h);
  }

  contents-put_byte : (x : ℕ) → is_full p ≡ false → contents (put_byte p x) ≡ contents p ++ (x ∷ [])
  contents-put_byte x h =
      ap (window (put_byte p x).buf (put_byte p x).nread) (count-put_byte x h)
      ∙ (unfold put_byte in
          window-update p.buf x (count p) p.nread p.nwrite v.nread_word (count-lt p v h)
            (omega arith))

  count-take_byte : is_empty p ≡ false → count p ≡ suc (count (take_byte p))
  unfolding take_byte
  count-take_byte h = omega (arith, ne_empty-count p v h)

  take_byte-IsValid : is_empty p ≡ false → IsValid (take_byte p)
  take_byte-IsValid h = record {
    nread_word = unfold take_byte in omega arith;
    nwrite_word = unfold take_byte in v.nwrite_word;
    fits = omega (arith, count-take_byte h);
  }

  contents-take_byte :
      is_empty p ≡ false → contents p ≡ p.buf (p.nread % pipe_size) ∷ contents (take_byte p)
  contents-take_byte h = ap (window p.buf p.nread) (count-take_byte h) ∙ (unfold take_byte in refl)

-- pipewrite keeps the pipe valid and puts bytes at the end of what it holds, in order: what it holds then, with
-- the bytes left over, is what it held and the bytes to write. It ends early only at a full pipe, and as broken
-- only if no reader is left or the process has been killed.
pub pipewrite_appends :
    (p : Pipe) (killed : Bool) (xs : List ℕ)
    → IsValid p
    → let (p', e) = pipewrite p killed xs in
      IsValid p'
      × (contents p' ++ left_over e ≡ contents p ++ xs)
      × ((e ≡ finished) ⊎ (is_full p' ≡ true))
      × ((ys : List ℕ) → e ≡ broken ys → (not p.readopen || killed) ≡ true)
      × ((ys : List ℕ) → e ≡ blocked ys → (not p.readopen || killed) ≡ false)
unfolding pipewrite put_byte
pipewrite_appends p killed [] v = (v, refl, inl refl, (λ ys e. cc), (λ ys e. cc))
pipewrite_appends p killed (x ∷ xs) v = elim (Bool-cases (is_full p)) [
  | inl full ↦ rw full (elim (Bool-cases (not p.readopen || killed)) [
    | inl b ↦ rw b (v, refl, inr full, (λ ys e. refl), (λ ys e. cc))
    | inr b ↦ rw b (v, refl, inr full, (λ ys e. cc), (λ ys e. refl))
  ])
  | inr room ↦ rw room (
      let (w, e, f, g, h) =
        pipewrite_appends (put_byte p x) killed xs (put_byte-IsValid p v x room) in
      (
        w,
        e
            ∙ ap (λ ys. ys ++ xs) (contents-put_byte p v x room)
            ∙ append_assoc (contents p) (x ∷ []) xs,
        f,
        g,
        h,
      ))
]

copy_out_lem :
    (p : Pipe) (n : ℕ)
    → IsValid p
    → let (p', xs) = copy_out p n in
      IsValid p' × (contents p ≡ xs ++ contents p') × (length xs ≡ min n (count p))
unfolding copy_out
copy_out_lem p zero v = (v, refl, omega arith)
copy_out_lem p (suc n) v = elim (Bool-cases (is_empty p)) [
  | inl e ↦ rw e (v, refl, (let z : 0 ≡ count p = sym (is_empty-count p v e) in omega arith))
  | inr e ↦ rw e (
      let (w, c, l) = copy_out_lem (take_byte p) n (take_byte-IsValid p v e) in
      (
        w,
        contents-take_byte p v e ∙ ap (◌∷◌ (p.buf (p.nread % pipe_size))) c,
        omega (arith, l, count-take_byte p v e),
      ))
]

-- piperead keeps the pipe valid and takes bytes from its front, in order: what it held is what was received and
-- what it holds then. With bytes in the pipe, or with no writer left, it receives as many as were asked for or as
-- there are; an empty pipe that has a writer makes a process wait, or return -1 if it has been killed.
pub piperead_takes :
    (p : Pipe) (killed : Bool) (n : ℕ)
    → IsValid p
    → let (p', e) = piperead p killed n in
      IsValid p'
      × (contents p ≡ received e ++ contents p')
      × ((is_empty p && p.writeopen) ≡ false → length (received e) ≡ min n (count p))
      × ((is_empty p && p.writeopen) ≡ true → e ≡ (if killed then interrupted else waiting))
unfolding piperead
piperead_takes p killed n v = elim (Bool-cases (is_empty p && p.writeopen)) [
  | inl e ↦ rw e (empty_end killed)
  | inr e ↦ rw e (let (w, c, l) = copy_out_lem p n v in (w, c, (λ _. l), (λ q. cc)))
]
  where
    empty_end :
        (k : Bool)
        → let r : Pipe × ReadEnd = if k then (p, interrupted) else (p, waiting) in
          IsValid (r.0)
          × (contents p ≡ received (r.1) ++ contents (r.0))
          × (◌≡◌ {A = Bool} true false → length (received (r.1)) ≡ min n (count p))
          × (◌≡◌ {A = Bool} true true → r.1 ≡ (if k then interrupted else waiting))
    empty_end true = (v, refl, (λ q. cc), (λ q. refl))
    empty_end false = (v, refl, (λ q. cc), (λ q. refl))
