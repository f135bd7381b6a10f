-- ===== src/Syscall/Args.antt =====
-- fetchint, fetchstr, argint, argptr and argstr of syscall.c. `none` stands for the result -1, and what a function
-- stores through its pointer comes with its result. An address and an int are 32-bit patterns.
use project4final.Text.Memory.{Memory}
use project4final.Prelude.{
  ℕ, ◌+◌, Option, ◌*◌, none, if◌then◌else◌, some, ◌^◌, leb, ◌%◌, suc, ◌||◌, ◌==◌, ltb, zero, ◌-◌,
}

-- What the functions read of the process: its size, its memory, and the stack pointer of its trap frame.
pub record UserSpace : Type 0 where
  pub sz : ℕ
  pub esp : ℕ
  pub mem : Memory

-- Going on with what has been fetched, or failing where it could not be.
abbrev pub fetched {ℓ κ} : {A : Type ℓ} {B : Type κ} → Option A → (A → Option B) → Option B
fetched none f = none
fetched (some a) f = f a

-- The int at an address, the lowest byte first.
abbrev pub word : Memory → ℕ → ℕ
word mem a = mem a + mem (a + 1) * 2 ^ 8 + mem (a + 2) * 2 ^ 16 + mem (a + 3) * 2 ^ 24

unfoldable pub fetchint : UserSpace → ℕ → Option ℕ
fetchint u addr =
    if leb u.sz addr || ltb u.sz ((addr + 4) % 2 ^ 32) then none else some (word u.mem addr)

-- The loop of fetchstr at `s`, with as many rounds as there are bytes below the end; `n` is `s - *pp`.
unfoldable pub fetch_nul : ℕ → Memory → ℕ → ℕ → Option ℕ
fetch_nul zero mem s n = none
fetch_nul (suc k) mem s n =
    let rest : Option ℕ = fetch_nul k mem (s + 1) (n + 1) in if mem s == 0 then some n else rest

unfoldable pub fetchstr : UserSpace → ℕ → Option (ℕ × ℕ)
unfolding fetch_nul
fetchstr u addr =
    if leb u.sz addr
    then none
    else fetched (fetch_nul (u.sz - addr) u.mem addr 0) (λ n. some (addr, n))

unfoldable pub argint : UserSpace → ℕ → Option ℕ
unfolding fetchint
argint u n = fetchint u ((u.esp + 4 + 4 * n) % 2 ^ 32)

-- The test of argptr on a pointer that it has fetched.
abbrev pub check_block : UserSpace → ℕ → ℕ → Option ℕ
check_block u size i = if leb u.sz i || ltb u.sz ((i + size) % 2 ^ 32) then none else some i

unfoldable pub argptr : UserSpace → ℕ → ℕ → Option ℕ
unfolding argint
argptr u n size = fetched (argint u n) (check_block u size)

unfoldable pub argstr : UserSpace → ℕ → Option (ℕ × ℕ)
unfolding argint fetchstr
argstr u n = fetched (argint u n) (fetchstr u)
