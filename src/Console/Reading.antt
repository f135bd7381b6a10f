-- ===== src/Console/Reading.antt =====
-- About consoleread, and a line from the keyboard to its reader.
use project4final.Console.Typed.{typed}
use project4final.Console.Typing.{consoleintr_types, typed_all}
use project4final.Console.Lines.{Shows, At}
use project4final.Console.Input.{
  Input, Effect, consoleintr, consoleread, ReadEnd, copied, returned, take_char, put_back, newline,
  input_size, interrupted, waiting, ctrl,
}
use mathlib.Core.List.{append_assoc}
use project4final.Prelude.{
  ℕ, List, Bool, ◌≤◌, ◌∷◌, [], ◌≡◌, ◌<◌, All, length, arith, ◌≢◌, ◌++◌, ◌+◌, suc, subst, eq→==,
  ne→==, ok, if◌then◌else◌, Bool-cases, true, length-append, false, ◌==◌, ◌∙◌, zero, ap, refl, inl,
  inr,
}

module _ (p : Input) (x : ℕ) (ready edit : List ℕ) (s : Shows p (x ∷ ready) edit) where
  take_char-Shows : Shows (take_char p) ready edit
  take_char-Shows = record {
    r_word = omega arith;
    w_at = omega (arith, s.w_at);
    e_at = s.e_at;
    room = omega (arith, s.room);
    ready_at = s.ready_at.1;
    edit_at = s.edit_at;
    one_line = s.one_line;
  }

  put_back-Shows : Shows (put_back (take_char p)) (x ∷ ready) edit
  put_back-Shows = record {
    r_word = omega arith;
    w_at = omega (arith, s.w_at, s.r_word);
    e_at = s.e_at;
    room = s.room;
    ready_at = subst (λ k. At p.buf k (x ∷ ready)) (omega (arith, s.r_word)) s.ready_at;
    edit_at = s.edit_at;
    one_line = s.one_line;
  }

  r-ne_w : p.r ≢ p.w
  r-ne_w q = omega (arith, q, s.w_at, s.r_word, s.room)

r-eq_w : (p : Input) (edit : List ℕ) → Shows p [] edit → p.r ≡ p.w
r-eq_w p edit s = omega (arith, s.w_at, s.r_word)

-- What a run of consoleread with `n` characters left to read makes of the characters that are ready.
unfoldable pub taken : ℕ → Bool → Bool → List ℕ → List ℕ × ReadEnd
taken zero begun killed xs = (xs, returned [])
taken (suc n) begun killed [] = ([], if killed then interrupted [] else waiting [])
taken (suc n) begun killed (x ∷ xs) =
    let rest : List ℕ × ReadEnd = taken n true killed xs in
    if x == ctrl b'D'
    then (if begun then x ∷ xs else xs, returned [])
    else if x == newline
    then (xs, returned (x ∷ []))
    else (rest.0, copied x rest.1)

-- consoleread takes characters from the front of those that are ready and leaves the line that is edited: up to `n`,
-- up to a newline, which it copies, or up to an end of file, which it leaves for the next read if it has copied any
-- character; with none ready it sleeps, or fails if the process has been killed.
pub consoleread_takes :
    (n : ℕ) (begun killed : Bool) (p : Input) (ready edit : List ℕ)
    → Shows p ready edit
    → Shows (consoleread n begun killed p).0 (taken n begun killed ready).0 edit
      × ((consoleread n begun killed p).1 ≡ (taken n begun killed ready).1)
unfolding consoleread taken
consoleread_takes zero begun killed p ready edit s = (s, refl)
consoleread_takes (suc n) begun killed p [] edit s = rw (eq→== p.r p.w (r-eq_w p edit s)) (s, refl)
consoleread_takes (suc n) begun killed p (x ∷ ready) edit s = elim (Bool-cases (x == ctrl b'D')) [
  | inl d ↦ rw (ne→== p.r p.w (r-ne_w p x ready edit s), s.ready_at.0, d) (at_end begun)
  | inr d ↦ elim (Bool-cases (x == newline)) [
    | inl e ↦
        rw (ne→== p.r p.w (r-ne_w p x ready edit s), s.ready_at.0, d, e)
          (take_char-Shows p x ready edit s, refl)
    | inr e ↦
        let ih =
          consoleread_takes n true killed (take_char p) ready edit
            (take_char-Shows p x ready edit s) in
        rw (ne→== p.r p.w (r-ne_w p x ready edit s), s.ready_at.0, d, e) (ih.0, ap (copied x) ih.1)
  ]
]
  where
    at_end :
        (b : Bool)
        → Shows
            (if b then put_back (take_char p) else take_char p)
            (if b then x ∷ ready else ready)
            edit
          × (returned [] ≡ returned [])
    at_end true = (put_back-Shows p x ready edit s, refl)
    at_end false = (take_char-Shows p x ready edit s, refl)

-- The characters from the space to the tilde.
abbrev pub Printable : ℕ → Type 0
Printable c = (32 ≤ c) × (c < 127)

taken_line :
    (n : ℕ) (begun killed : Bool) (line more : List ℕ)
    → All Printable line
    → length line < n
    → taken n begun killed (line ++ (newline ∷ more)) ≡ (more, returned (line ++ (newline ∷ [])))
unfolding taken
taken_line zero begun killed line more h l = absurd (omega arith)
taken_line (suc n) begun killed [] more h l = refl
taken_line (suc n) begun killed (c ∷ line) more h l =
    rw
      (
        ne→== c 4 (λ e. omega (arith, h.0.0)),
        ne→== c 10 (λ e. omega (arith, h.0.0)),
        taken_line n true killed line more h.1 (omega arith),
      )
      refl

typed-Printable :
    (ready edit : List ℕ) (c : ℕ)
    → Printable c
    → length ready + length edit + 1 < input_size
    → typed ready edit c ≡ (ready, edit ++ (c ∷ []))
unfolding typed
typed-Printable ready edit c h l = ground arith

typed-newline :
    (ready edit : List ℕ)
    → length ready + length edit < input_size
    → typed ready edit newline ≡ (ready ++ (edit ++ (newline ∷ [])), [])
unfolding typed
typed-newline ready edit l = ground arith

typed_all-line :
    (line edit : List ℕ)
    → All Printable line
    → length edit + length line < input_size
    → typed_all ([], edit) (line ++ (newline ∷ [])) ≡ (edit ++ (line ++ (newline ∷ [])), [])
unfolding typed_all
typed_all-line [] edit h l = rw (typed-newline [] edit (omega arith)) refl
typed_all-line (c ∷ line) edit h l =
    rw (ne→== c 16 (λ e. omega (arith, h.0.0)), typed-Printable [] edit c h.0 (omega arith))
      (typed_all-line line (edit ++ (c ∷ [])) h.1 (omega (arith, length-append edit (c ∷ [])))
        ∙ ap (λ xs. (xs, [])) (append_assoc edit (c ∷ []) (line ++ (newline ∷ []))))

-- A line of printable characters and a newline, typed at an empty input that it fits in, comes out of a consoleread
-- that asks for at least as many characters, and leaves the input empty.
pub typed_line_read :
    (p : Input) (dump killed : Bool) (line : List ℕ) (n : ℕ)
    → Shows p [] []
    → All Printable line
    → length line < input_size
    → length line < n
    → (q : Input) × (effects : List Effect) × (dump' : Bool) × (consoleintr p dump
          (line ++ (newline ∷ []))
        ≡ ok (q, effects, dump'))
      × ((consoleread n false killed q).1 ≡ returned (line ++ (newline ∷ [])))
      × Shows (consoleread n false killed q).0 [] []
typed_line_read p dump killed line n s h l m =
    let (q, effects, dump', e, t) = consoleintr_types p ([], []) dump (line ++ (newline ∷ [])) s in
    let t' : Shows q (line ++ (newline ∷ [])) [] =
      subst (λ ls. Shows q ls.0 ls.1) (typed_all-line line [] h (omega arith)) t in
    let (u, v) = consoleread_takes n false killed q (line ++ (newline ∷ [])) [] t' in
    let w = taken_line n false killed line [] h m in
    (
      q,
      effects,
      dump',
      e,
      v ∙ ap (λ r. r.1) w,
      subst (λ r. Shows (consoleread n false killed q).0 r.0 []) w u,
    )
