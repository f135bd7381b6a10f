-- ===== src/Syscall/Within.antt =====
-- About the checks of the arguments against the size of the process.
use project4final.Syscall.Args.{
  UserSpace, word, fetchint, fetch_nul, fetchstr, argint, argptr, check_block, fetched,
}
use project4final.Text.Strings.{StringAt}
use project4final.Text.Memory.{Memory}
use project4final.Prelude.{
  ℕ, ◌≤◌, ◌≡◌, List, ◌^◌, some, length, ◌↔◌, ◌<◌, ◌+◌, dec_lt, Option, arith, suc, ℕ_discrete, ap,
  [], ◌∷◌, ne→==, ◌∙◌, zero, refl, subst, sym, none, ◌-◌, ap₂,
}

-- fetchint gives the word at an address exactly if its four bytes are below the size of the process, which is at most
-- KERNBASE.
pub fetchint_iff :
    (u : UserSpace) (addr w : ℕ)
    → u.sz ≤ 2 ^ 31
    → (fetchint u addr ≡ some w) ↔ ((addr + 4 ≤ u.sz) × (w ≡ word u.mem addr))
unfolding fetchint
fetchint_iff u addr w h = elim (dec_lt u.sz (addr + 4)) [
  | yes l ↦ (λ e. absurd (ground arith), λ k. absurd (omega (arith, k.0)))
  | no l ↦ (λ e. (omega arith, ground arith), λ k. ground arith)
]

none≢some : {A : Type 0} {a : A} → (none ≡ some a) → ⊥
none≢some e = cc

check_block_iff :
    (u : UserSpace) (size j : ℕ)
    → u.sz ≤ 2 ^ 31
    → size < 2 ^ 31
    → (i : ℕ) → (check_block u size j ≡ some i) ↔ ((j ≡ i) × (j < u.sz) × (j + size ≤ u.sz))
check_block_iff u size j h l i = elim (dec_lt j u.sz) [
  | no o ↦ (λ e. absurd (ground arith), λ k. absurd (o k.1))
  | yes o ↦ elim (dec_lt u.sz (j + size)) [
    | yes q ↦ (λ e. absurd (ground arith), λ k. absurd (omega (arith, q, k.2)))
    | no q ↦ (λ e. (ground arith, o, omega arith), λ k. ground arith)
  ]
]

-- argptr gives the pointer that it fetches exactly if the block of `size` bytes there is below the size of the
-- process, for a size that is not negative and a process that is not above KERNBASE.
pub argptr_iff :
    (u : UserSpace) (n size i : ℕ)
    → u.sz ≤ 2 ^ 31
    → size < 2 ^ 31
    → (argptr u n size ≡ some i) ↔ ((argint u n ≡ some i) × (i < u.sz) × (i + size ≤ u.sz))
unfolding argptr
argptr_iff u n size i h l = block (argint u n)
  where
    block :
        (o : Option ℕ)
        → (fetched o (check_block u size) ≡ some i)
          ↔ ((o ≡ some i) × (i < u.sz) × (i + size ≤ u.sz))
    block none = (λ e. absurd (cc), λ k. absurd (none≢some k.0))
    block (some j) =
        let c = check_block_iff u size j h l i in
        (
          (λ e.
              let k = c.0 e in
              (ap some k.0, subst (λ x. x < u.sz) k.0 k.1, subst (λ x. x + size ≤ u.sz) k.0 k.2)),
          λ k.
              let q : i ≡ j = cc in
              c.1 (sym q, subst (λ x. x < u.sz) q k.1, subst (λ x. x + size ≤ u.sz) q k.2),
        )

fetch_nul_sound :
    (k : ℕ) (mem : Memory) (s n r : ℕ)
    → fetch_nul k mem s n ≡ some r
    → (xs : List ℕ) × StringAt mem s xs × (length xs < k) × (r ≡ n + length xs)
unfolding fetch_nul
fetch_nul_sound zero mem s n r e = absurd (cc)
fetch_nul_sound (suc k) mem s n r e = elim (ℕ_discrete (mem s) 0) [
  | yes z ↦ ([], z, omega arith, ground arith)
  | no z ↦
      let (xs, t, l, q) = fetch_nul_sound k mem (s + 1) (n + 1) r (rw (ne→== (mem s) 0 z) at e) in
      (mem s ∷ xs, (refl, z, t), omega (arith, l), omega (arith, q))
]

fetch_nul_complete :
    (k : ℕ) (mem : Memory) (s n : ℕ) (xs : List ℕ)
    → StringAt mem s xs
    → length xs < k
    → fetch_nul k mem s n ≡ some (n + length xs)
unfolding fetch_nul
fetch_nul_complete zero mem s n xs t l = absurd (omega arith)
fetch_nul_complete (suc k) mem s n [] t l = rw t (ap some (omega arith))
fetch_nul_complete (suc k) mem s n (x ∷ xs) t l =
    rw (t.0, ne→== x 0 t.1)
      (fetch_nul_complete k mem (s + 1) (n + 1) xs t.2 (omega arith) ∙ ap some (omega arith))

fetchstr_below :
    (u : UserSpace) (addr : ℕ)
    → addr < u.sz
    → fetchstr u addr ≡ fetched (fetch_nul (u.sz - addr) u.mem addr 0) (λ n. some (addr, n))
unfolding fetchstr
fetchstr_below u addr h = ground arith

fetchstr_above : (u : UserSpace) (addr : ℕ) → u.sz ≤ addr → fetchstr u addr ≡ none
unfolding fetchstr
fetchstr_above u addr h = ground arith

-- A string of `n` characters and its NUL stand at `a`, which is `addr`, below the size of the process.
abbrev pub StringBelow : UserSpace → ℕ → ℕ → ℕ → Type 0
StringBelow u addr a n =
    (xs : List ℕ) × (a ≡ addr) × StringAt u.mem addr xs × (length xs ≡ n) × (addr + n < u.sz)

-- fetchstr gives an address and a length exactly if a string of that length stands there and ends below the size of
-- the process.
pub fetchstr_iff :
    (u : UserSpace) (addr a n : ℕ) → (fetchstr u addr ≡ some (a, n)) ↔ StringBelow u addr a n
fetchstr_iff u addr a n = (fetchstr_sound u addr a n, fetchstr_complete u addr a n)
  where
    shift : (k : ℕ) → 0 + k ≡ k
    shift k = omega arith

    scanned :
        (u : UserSpace) (addr a n : ℕ) (r : Option ℕ)
        → addr < u.sz
        → fetch_nul (u.sz - addr) u.mem addr 0 ≡ r
        → fetched {B = ℕ × ℕ} r (λ k. some (addr, k)) ≡ some (a, n)
        → StringBelow u addr a n
    scanned u addr a n none o e q = absurd (none≢some q)
    scanned u addr a n (some r) o e q =
        let (xs, t, l, k) = fetch_nul_sound (u.sz - addr) u.mem addr 0 r e in
        let p : addr ≡ a = cc in
        let m : r ≡ n = cc in (xs, sym p, t, omega (arith, k, m), omega (arith, k, m, l))

    fetchstr_sound :
        (u : UserSpace) (addr a n : ℕ) → fetchstr u addr ≡ some (a, n) → StringBelow u addr a n
    fetchstr_sound u addr a n e = elim (dec_lt addr u.sz) [
      | no o ↦ absurd (none≢some (sym (fetchstr_above u addr (omega arith)) ∙ e))
      | yes o ↦
          scanned u addr a n (fetch_nul (u.sz - addr) u.mem addr 0) o refl
            (sym (fetchstr_below u addr o) ∙ e)
    ]

    fetchstr_complete :
        (u : UserSpace) (addr a n : ℕ) → StringBelow u addr a n → fetchstr u addr ≡ some (a, n)
    fetchstr_complete u addr a n (xs, q, t, k, l) =
        fetchstr_below u addr (omega arith)
        ∙ rw (fetch_nul_complete (u.sz - addr) u.mem addr 0 xs t (omega arith))
            (ap₂ (λ x y. some (x, y)) (sym q) (shift (length xs) ∙ k))

-- argptr takes a negative size: a pointer that it fetches from within the process passes with the size `-k`, for a
-- positive `k` up to the pointer.
pub argptr_takes_negative :
    (u : UserSpace) (n k i : ℕ)
    → argint u n ≡ some i
    → i < u.sz
    → u.sz ≤ 2 ^ 31
    → 0 < k
    → k ≤ i
    → argptr u n (2 ^ 32 - k) ≡ some i
unfolding argptr
argptr_takes_negative u n k i e l h p q = rw e (ground arith)
