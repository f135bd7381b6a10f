-- ===== src/Console/Typed.antt =====
-- What a typed character does to the two lists.
use project4final.Console.Lines.{Shows, At-prefix, drop_last, last_cases, drop_last-append}
use project4final.Console.Input.{
  Input, Effect, back, kill_line, backspace, carriage, ctrl, newline, input_size, erase,
}
use project4final.Prelude.{
  ℕ, List, Outcome, All, ◌++◌, [], ◌≡◌, length, if◌then◌else◌, inl, ◌==◌, ◌∷◌, arith, ok, ◌<◌,
  subst, ◌||◌, ◌+◌, length-append, ◌%◌, ◌≢◌, eq→==, suc, not, ◌^◌, ap, inr, ◌&&◌, ◌∙◌, ne→==, ltb,
  zero, refl,
}

-- A character joins the line that is edited; a newline, an end of file or a full buffer makes the line ready.
abbrev pub joined : List ℕ → List ℕ → ℕ → List ℕ × List ℕ
joined ready edit c =
    if c == newline || c == ctrl b'D' || length ready + length edit + 1 == input_size
    then (ready ++ (edit ++ (c ∷ [])), [])
    else (ready, edit ++ (c ∷ []))

-- C('U') takes the line away and a backspace its last character; any other character but NUL joins it if there is room.
unfoldable pub typed : List ℕ → List ℕ → ℕ → List ℕ × List ℕ
typed ready edit c =
    if c == ctrl b'U'
    then (ready, [])
    else if c == ctrl b'H' || c == 127
    then (ready, drop_last edit)
    else if not (c == 0) && ltb (length ready + length edit) input_size
    then joined ready edit (carriage c)
    else (ready, edit)

All-prefix : (P : ℕ → Type 0) (xs ys : List ℕ) → All P (xs ++ ys) → All P xs × All P ys
All-prefix P [] ys h = (tt, h)
All-prefix P (x ∷ xs) ys h = let (a, b) = All-prefix P xs ys h.1 in ((h.0, a), b)

module _ (p : Input) (ready ys : List ℕ) (y : ℕ) (s : Shows p ready (ys ++ (y ∷ []))) where
  e-back : (back p).e ≡ (p.w + length ys) % 2 ^ 32
  unfolding back
  e-back = omega (arith, s.e_at, length-append ys (y ∷ []), s.room)

  back-Shows : Shows (back p) ready ys
  unfolding back
  back-Shows = record {
    r_word = s.r_word;
    w_at = s.w_at;
    e_at = e-back;
    room = omega (arith, s.room, length-append ys (y ∷ []));
    ready_at = s.ready_at;
    edit_at = (At-prefix p.buf p.w ys (y ∷ []) (omega (arith, s.w_at)) s.edit_at).0;
    one_line = (All-prefix (λ x. x ≢ newline) ys (y ∷ []) s.one_line).0;
  }

  back-last : p.buf ((back p).e % input_size) ≡ y
  back-last =
      ap (λ k. p.buf (k % input_size)) e-back
      ∙ (At-prefix p.buf p.w ys (y ∷ []) (omega (arith, s.w_at)) s.edit_at).1.0

  last-ne : y ≢ newline
  last-ne = (All-prefix (λ x. x ≢ newline) ys (y ∷ []) s.one_line).1.0

  e-ne_w : p.e ≢ p.w
  e-ne_w q = omega (arith, q, s.e_at, s.w_at, s.room, length-append ys (y ∷ []))

e-eq_w : (p : Input) (ready : List ℕ) → Shows p ready [] → p.e ≡ p.w
e-eq_w p ready s = omega (arith, s.e_at, s.w_at)

-- The outcome is a state that stands for the two lists.
abbrev pub EndsAs : Outcome (Input × List Effect) → List ℕ × List ℕ → Type 0
EndsAs o ls = (q : Input) × (effects : List Effect) × (o ≡ ok (q, effects)) × Shows q ls.0 ls.1

pub kill_line_lem :
    (f : ℕ) (p : Input) (ready edit : List ℕ)
    → Shows p ready edit
    → length edit < f
    → EndsAs (kill_line f p) (ready, [])
unfolding kill_line
kill_line_lem zero p ready edit s l = absurd (omega arith)
kill_line_lem (suc f) p ready edit s l = elim (last_cases edit) [
  | inl n ↦
      let t = subst (Shows p ready) n s in (p, [], rw (eq→== p.e p.w (e-eq_w p ready t)) refl, t)
  | inr (ys, y, n) ↦
      let t = subst (Shows p ready) n s in
      let (q, effects, g, u) =
        kill_line_lem f (back p) ready ys (back-Shows p ready ys y t)
          (omega (arith, l, ap length n, length-append ys (y ∷ []))) in
      (
        q,
        erase ∷ effects,
        rw
            (
              ne→== p.e p.w (e-ne_w p ready ys y t),
              back-last p ready ys y t,
              ne→== y newline (last-ne p ready ys y t),
              g,
            )
            refl,
        u,
      )
]

pub backspace_lem :
    (p : Input) (ready edit : List ℕ)
    → Shows p ready edit
    → Shows (backspace p).0 ready (drop_last edit)
unfolding backspace drop_last
backspace_lem p ready edit s = elim (last_cases edit) [
  | inl n ↦ let t = subst (Shows p ready) n s in rw (eq→== p.e p.w (e-eq_w p ready t), n) t
  | inr (ys, y, n) ↦
      let t = subst (Shows p ready) n s in
      rw (ne→== p.e p.w (e-ne_w p ready ys y t), n, drop_last-append ys y)
        (back-Shows p ready ys y t)
]
