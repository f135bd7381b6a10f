-- ===== src/Console/Typing.antt =====
-- About consoleintr: a character at a time, by the two lists.
use project4final.Console.Typed.{joined, typed, EndsAs, kill_line_lem, backspace_lem}
use project4final.Console.Lines.{Shows, At, At-append, At-put}
use project4final.Console.Input.{
  Input, Effect, backspace, put_char, carriage, store, default_case, consoleintr_case, ctrl,
  newline, input_size, consoleintr,
}
use project4final.Prelude.{
  ℕ, List, length, ◌+◌, ◌<◌, ◌++◌, ◌≡◌, subst, ◌≢◌, ◌%◌, Bool, ◌∷◌, ◌^◌, update, ◌==◌, [], arith,
  sym, ℕ_discrete, ◌||◌, ap, length-append, eq→==, true, ◌∙◌, All-append, ne→==, false, update_self,
  ◌-◌, not, Bool-cases, if◌then◌else◌, ◌&&◌, ok, inl, ltb, suc, inr, refl,
}

module _ (p : Input) (ready edit : List ℕ) (s : Shows p ready edit)
    (l : length ready + length edit < input_size) (c : ℕ) where
  put_char-At : At (put_char p c).buf p.w (edit ++ (c ∷ []))
  put_char-At =
      At-append (put_char p c).buf p.w edit (c ∷ []) (omega (arith, s.w_at))
        (subst (λ k. At (update p.buf (k % input_size) c) p.w edit) (sym s.e_at)
          (At-put p.buf p.w (length edit) c edit (omega (arith, s.w_at)) (omega arith)
            (omega (arith, l)) s.edit_at))
        (
          ap (λ k. (put_char p c).buf (k % input_size)) (sym s.e_at)
              ∙ update_self p.buf (p.e % input_size) c,
          tt,
        )

  e-by_r : p.e ≡ (p.r + (length ready + length edit)) % 2 ^ 32
  e-by_r = omega (arith, s.e_at, s.w_at)

  put_char-At_ready : At (put_char p c).buf p.r ready
  put_char-At_ready =
      subst (λ k. At (update p.buf (k % input_size) c) p.r ready) (sym e-by_r)
        (At-put p.buf p.r (length ready + length edit) c ready s.r_word (omega arith) l s.ready_at)

  put_char-Shows : c ≢ newline → Shows (put_char p c) ready (edit ++ (c ∷ []))
  put_char-Shows n = record {
    r_word = s.r_word;
    w_at = s.w_at;
    e_at = omega (arith, s.e_at, length-append edit (c ∷ []));
    room = omega (arith, l, length-append edit (c ∷ []));
    ready_at = put_char-At_ready;
    edit_at = put_char-At;
    one_line = All-append (λ x. x ≢ newline) edit (c ∷ []) s.one_line (n, tt);
  }

  commit-Shows :
      Shows (record (put_char p c) { w = (put_char p c).e }) (ready ++ (edit ++ (c ∷ []))) []
  commit-Shows = record {
    r_word = s.r_word;
    w_at =
        omega (arith, e-by_r, length-append ready (edit ++ (c ∷ [])), length-append edit (c ∷ []));
    e_at = omega arith;
    room = omega (arith, l, length-append ready (edit ++ (c ∷ [])), length-append edit (c ∷ []));
    ready_at =
        At-append (put_char p c).buf p.r ready (edit ++ (c ∷ [])) s.r_word put_char-At_ready
          (subst (λ k. At (put_char p c).buf k (edit ++ (c ∷ []))) s.w_at put_char-At);
    edit_at = tt;
    one_line = tt;
  }

  is_full_lem :
      (p.e + 1) % 2 ^ 32 == (p.r + input_size) % 2 ^ 32
      ≡ length ready + length edit + 1 == input_size
  is_full_lem = elim (ℕ_discrete (length ready + length edit + 1) input_size) [
    | yes q ↦
        rw (eq→== (length ready + length edit + 1) input_size q)
          (eq→== ((p.e + 1) % 2 ^ 32) ((p.r + input_size) % 2 ^ 32) (omega (arith, e-by_r, q)))
    | no q ↦ rw (ne→== (length ready + length edit + 1) input_size q) (
        ne→== ((p.e + 1) % 2 ^ 32) ((p.r + input_size) % 2 ^ 32)
          (λ k. q (omega (arith, e-by_r, k, l))))
  ]

  store-Shows :
      (b : Bool)
      → (c == newline || c == ctrl b'D' || length ready + length edit + 1 == input_size) ≡ b
      → Shows (store p c).0 (joined ready edit c).0 (joined ready edit c).1
  store-Shows true e = rw (is_full_lem, e) commit-Shows
  store-Shows false e = rw (is_full_lem, e) (put_char-Shows (λ q. ground arith))

room_lem :
    (p : Input) (ready edit : List ℕ)
    → Shows p ready edit
    → (p.e + 2 ^ 32 - p.r) % 2 ^ 32 ≡ length ready + length edit
room_lem p ready edit s = omega (arith, s.e_at, s.w_at, s.r_word, s.room)

default_case-Shows :
    (p : Input) (ready edit : List ℕ) (c : ℕ)
    → Shows p ready edit
    → (b : Bool) → (not (c == 0) && ltb (length ready + length edit) input_size) ≡ b
    → let ls =
        if not (c == 0) && ltb (length ready + length edit) input_size
        then joined ready edit (carriage c)
        else (ready, edit) in
      Shows (default_case p c).0 ls.0 ls.1
default_case-Shows p ready edit c s true e =
    rw (room_lem p ready edit s, e)
      (store-Shows p ready edit s (ground arith) (carriage c)
        (carriage c == newline
          || carriage c == ctrl b'D'
          || length ready + length edit + 1 == input_size)
        refl)
default_case-Shows p ready edit c s false e = rw (room_lem p ready edit s, e) s

-- From an input that stands for two lists, each case of consoleintr but C('P') ends, in a state that stands for the
-- two lists that `typed` gives.
pub consoleintr_case_types :
    (p : Input) (ready edit : List ℕ) (c : ℕ)
    → Shows p ready edit
    → EndsAs (consoleintr_case p c) (typed ready edit c)
unfolding consoleintr_case typed
consoleintr_case_types p ready edit c s = elim (Bool-cases (c == ctrl b'U')) [
  | inl u ↦ rw u (kill_line_lem (suc input_size) p ready edit s (omega (arith, s.room)))
  | inr u ↦ elim (Bool-cases (c == ctrl b'H' || c == 127)) [
    | inl h ↦ rw (u, h) ((backspace p).0, (backspace p).1, refl, backspace_lem p ready edit s)
    | inr h ↦
        rw (u, h)
          (
            (default_case p c).0,
            (default_case p c).1,
            refl,
            default_case-Shows p ready edit c s
                (not (c == 0) && ltb (length ready + length edit) input_size) refl,
          )
  ]
]

-- What the characters that are typed do to the two lists one after the other; C('P') does nothing to them.
unfoldable pub typed_all : List ℕ × List ℕ → List ℕ → List ℕ × List ℕ
typed_all ls [] = ls
typed_all ls (c ∷ cs) = if c == ctrl b'P' then typed_all ls cs else typed_all (typed ls.0 ls.1 c) cs

-- From an input that stands for two lists, consoleintr ends, in a state that stands for the lists that the typed
-- characters make of them one after the other.
pub consoleintr_types :
    (p : Input) (ls : List ℕ × List ℕ) (dump : Bool) (cs : List ℕ)
    → Shows p ls.0 ls.1
    → (q : Input) × (effects : List Effect) × (dump' : Bool) × (consoleintr p dump cs
        ≡ ok (q, effects, dump'))
      × Shows q (typed_all ls cs).0 (typed_all ls cs).1
unfolding consoleintr typed_all
consoleintr_types p ls dump [] s = (p, [], dump, refl, s)
consoleintr_types p ls dump (c ∷ cs) s = elim (Bool-cases (c == ctrl b'P')) [
  | inl h ↦ rw h (consoleintr_types p ls true cs s)
  | inr h ↦
      let (q, effects, e, t) = consoleintr_case_types p ls.0 ls.1 c s in
      let (u, more, dump', g, k) = consoleintr_types q (typed ls.0 ls.1 c) dump cs t in
      rw h (u, effects ++ more, dump', rw e (rw g refl), k)
]
