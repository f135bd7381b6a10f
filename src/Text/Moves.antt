-- ===== src/Text/Moves.antt =====
-- About memmove and memset of string.c.
use project4final.Text.Memory.{
  copy_down, copy_up, memmove, stosb, Memory, stosl, memset, four_times,
}
use native.Mathlib.Nat.{add-zero}
use project4final.Prelude.{
  zero, suc, ℕ, ◌+◌, ◌*◌, ◌%◌, ◌/◌, ◌^◌, refl, ◌<◌, ◌≤◌, update, ◌⊎◌, ◌≡◌, arith, Bool-cases, ◌==◌,
  ◌∙◌, inl, dec_lt, ltb, ℕ_discrete, ◌&&◌, update_ne, ap, true, inr, update_self, sym,
}

copy_down_out :
    (n : ℕ) (mem : Memory) (dst src x : ℕ)
    → (x < dst) ⊎ (dst + n ≤ x)
    → copy_down mem dst src n x ≡ mem x
unfolding copy_down
copy_down_out zero mem dst src x h = refl
copy_down_out (suc n) mem dst src x h =
    copy_down_out n (update mem (dst + n) (mem (src + n))) dst src x (omega arith)
    ∙ update_ne mem (dst + n) (mem (src + n)) x (λ e. omega arith)

copy_up_out :
    (n : ℕ) (mem : Memory) (dst src x : ℕ)
    → (x < dst) ⊎ (dst + n ≤ x)
    → copy_up mem dst src n x ≡ mem x
unfolding copy_up
copy_up_out zero mem dst src x h = refl
copy_up_out (suc n) mem dst src x h =
    copy_up_out n (update mem dst (mem src)) (dst + 1) (src + 1) x (omega arith)
    ∙ update_ne mem dst (mem src) x (λ e. omega arith)

copy_up_in :
    (n : ℕ) (mem : Memory) (dst src i : ℕ)
    → (dst ≤ src) ⊎ (src + n ≤ dst)
    → i < n
    → copy_up mem dst src n (dst + i) ≡ mem (src + i)
unfolding copy_up
copy_up_in zero mem dst src i h l = absurd (omega arith)
copy_up_in (suc n) mem dst src zero h l =
    copy_up_out n (update mem dst (mem src)) (dst + 1) (src + 1) (dst + 0) (inl (omega arith))
    ∙ ap (update mem dst (mem src)) (add-zero dst)
    ∙ update_self mem dst (mem src)
    ∙ ap mem (sym (add-zero src))
copy_up_in (suc n) mem dst src (suc i) h l =
    ap (copy_up (update mem dst (mem src)) (dst + 1) (src + 1) n) (shift dst)
    ∙ copy_up_in n (update mem dst (mem src)) (dst + 1) (src + 1) i (omega arith) (omega arith)
    ∙ update_ne mem dst (mem src) (src + 1 + i) (λ e. omega arith)
    ∙ ap mem (sym (shift src))
  where
    shift : (a : ℕ) → a + suc i ≡ a + 1 + i
    shift a = omega arith

copy_down_in :
    (n : ℕ) (mem : Memory) (dst src i : ℕ)
    → src < dst
    → i < n
    → copy_down mem dst src n (dst + i) ≡ mem (src + i)
unfolding copy_down
copy_down_in zero mem dst src i h l = absurd (omega arith)
copy_down_in (suc n) mem dst src i h l = elim (dec_lt i n) [
  | yes k ↦
      copy_down_in n (update mem (dst + n) (mem (src + n))) dst src i h k
      ∙ update_ne mem (dst + n) (mem (src + n)) (src + i) (λ e. omega arith)
  | no k ↦
      let e : i ≡ n = omega arith in
      copy_down_out n (update mem (dst + n) (mem (src + n))) dst src (dst + i) (inr (omega arith))
      ∙ ap (λ j. update mem (dst + n) (mem (src + n)) (dst + j)) e
      ∙ update_self mem (dst + n) (mem (src + n))
      ∙ ap (λ j. mem (src + j)) (sym e)
]

-- memmove copies the `n` bytes from `src` to `dst` as they were before the call, whether the two ranges overlap or
-- not and in which order they lie, and changes no other byte.
pub memmove_copies :
    (mem : Memory) (dst src n : ℕ)
    → ((i : ℕ) → i < n → memmove mem dst src n (dst + i) ≡ mem (src + i))
      × ((x : ℕ) → (x < dst) ⊎ (dst + n ≤ x) → memmove mem dst src n x ≡ mem x)
unfolding memmove
memmove_copies mem dst src n = elim (Bool-cases (ltb src dst && ltb dst (src + n))) [
  | inl e ↦
      rw e ((λ i l. copy_down_in n mem dst src i (ground arith) l), copy_down_out n mem dst src)
  | inr e ↦ rw e ((λ i l. copy_up_in n mem dst src i (ground arith) l), copy_up_out n mem dst src)
]

stosb_out :
    (n : ℕ) (mem : Memory) (dst c x : ℕ) → (x < dst) ⊎ (dst + n ≤ x) → stosb mem dst c n x ≡ mem x
unfolding stosb
stosb_out zero mem dst c x h = refl
stosb_out (suc n) mem dst c x h =
    stosb_out n (update mem dst (c % 256)) (dst + 1) c x (omega arith)
    ∙ update_ne mem dst (c % 256) x (λ e. omega arith)

stosb_in :
    (n : ℕ) (mem : Memory) (dst c x : ℕ) → dst ≤ x → x < dst + n → stosb mem dst c n x ≡ c % 256
unfolding stosb
stosb_in zero mem dst c x h l = absurd (omega arith)
stosb_in (suc n) mem dst c x h l = elim (ℕ_discrete x dst) [
  | yes e ↦
      stosb_out n (update mem dst (c % 256)) (dst + 1) c x (inl (omega arith))
      ∙ ap (update mem dst (c % 256)) e
      ∙ update_self mem dst (c % 256)
  | no k ↦ stosb_in n (update mem dst (c % 256)) (dst + 1) c x (omega arith) (omega arith)
]

-- One word of four equal bytes.
word : Memory → ℕ → ℕ → Memory
word mem dst w =
    update
      (update (update (update mem dst (w % 256)) (dst + 1) (w / 2 ^ 8 % 256)) (dst + 2)
        (w / 2 ^ 16 % 256))
      (dst + 3) (w / 2 ^ 24 % 256)

word_out : (mem : Memory) (dst w x : ℕ) → (x < dst) ⊎ (dst + 4 ≤ x) → word mem dst w x ≡ mem x
unfolding word
word_out mem dst w x h = ground arith

word_in :
    (mem : Memory) (dst c x : ℕ)
    → c < 256
    → dst ≤ x
    → x < dst + 4
    → word mem dst (four_times c) x ≡ c
unfolding word
word_in mem dst c x h k l = ground arith

stosl_out :
    (n : ℕ) (mem : Memory) (dst w x : ℕ)
    → (x < dst) ⊎ (dst + n * 4 ≤ x)
    → stosl mem dst w n x ≡ mem x
unfolding stosl word
stosl_out zero mem dst w x h = refl
stosl_out (suc n) mem dst w x h =
    stosl_out n (word mem dst w) (dst + 4) w x (omega arith) ∙ word_out mem dst w x (omega arith)

stosl_in :
    (n : ℕ) (mem : Memory) (dst c x : ℕ)
    → c < 256
    → dst ≤ x
    → x < dst + n * 4
    → stosl mem dst (four_times c) n x ≡ c
unfolding stosl word
stosl_in zero mem dst c x b h l = absurd (omega arith)
stosl_in (suc n) mem dst c x b h l = elim (dec_lt x (dst + 4)) [
  | yes k ↦
      stosl_out n (word mem dst (four_times c)) (dst + 4) (four_times c) x (inl k)
      ∙ word_in mem dst c x b h k
  | no k ↦ stosl_in n (word mem dst (four_times c)) (dst + 4) c x b (omega arith) (omega arith)
]

-- memset gives each of the `n` bytes from `dst` on the low byte of `c`, by words or by bytes as the alignment allows,
-- and changes no other byte.
pub memset_fills :
    (mem : Memory) (dst c n : ℕ)
    → ((x : ℕ) → dst ≤ x → x < dst + n → memset mem dst c n x ≡ c % 256)
      × ((x : ℕ) → (x < dst) ⊎ (dst + n ≤ x) → memset mem dst c n x ≡ mem x)
unfolding memset
memset_fills mem dst c n = elim (Bool-cases (dst % 4 == 0 && n % 4 == 0)) [
  | inl e ↦
      let q : n / 4 * 4 ≡ n = whole e in
      rw e (
        (λ x h l. stosl_in (n / 4) mem dst (c % 256) x (omega arith) h (omega (arith, q))),
        λ x h. stosl_out (n / 4) mem dst (four_times (c % 256)) x (omega (arith, q)),
      )
  | inr e ↦ rw e (stosb_in n mem dst c, stosb_out n mem dst c)
]
  where
    whole : (dst % 4 == 0 && n % 4 == 0) ≡ true → n / 4 * 4 ≡ n
    whole e = ground arith
