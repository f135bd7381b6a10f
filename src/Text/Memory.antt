-- ===== src/Text/Memory.antt =====
-- memset, memcmp and memmove of string.c. A memory gives the byte at each address; addresses do not wrap.
use project4final.Prelude.{
  zero, suc, ℕ, ◌+◌, ◌*◌, ◌%◌, ◌/◌, ◌^◌, update, ◌-◌, if◌then◌else◌, ◌==◌, ltb, ◌&&◌,
}

abbrev pub Memory : Type 0
Memory = ℕ → ℕ

-- rep stosb: `n` bytes of value al.
unfoldable pub stosb : Memory → ℕ → ℕ → ℕ → Memory
stosb mem dst c zero = mem
stosb mem dst c (suc n) = stosb (update mem dst (c % 256)) (dst + 1) c n

-- rep stosl: `n` words of four bytes, the lowest byte first.
unfoldable pub stosl : Memory → ℕ → ℕ → ℕ → Memory
stosl mem dst w zero = mem
stosl mem dst w (suc n) =
    stosl
      (update
        (update (update (update mem dst (w % 256)) (dst + 1) (w / 2 ^ 8 % 256)) (dst + 2)
          (w / 2 ^ 16 % 256))
        (dst + 3) (w / 2 ^ 24 % 256))
      (dst + 4) w n

-- `(c<<24)|(c<<16)|(c<<8)|c` for a byte c: the four parts do not overlap, so their join is their sum.
abbrev pub four_times : ℕ → ℕ
four_times c = c * 2 ^ 24 + c * 2 ^ 16 + c * 2 ^ 8 + c

unfoldable pub memset : Memory → ℕ → ℕ → ℕ → Memory
unfolding stosb stosl
memset mem dst c n =
    if dst % 4 == 0 && n % 4 == 0
    then stosl mem dst (four_times (c % 256)) (n / 4)
    else stosb mem dst c n

-- a - b of two bytes, as a 32-bit pattern.
abbrev pub byte_diff : ℕ → ℕ → ℕ
byte_diff a b = (a + 2 ^ 32 - b) % 2 ^ 32

unfoldable pub memcmp : Memory → ℕ → ℕ → ℕ → ℕ
memcmp mem s1 s2 zero = 0
memcmp mem s1 s2 (suc n) =
    let rest : ℕ = memcmp mem (s1 + 1) (s2 + 1) n in
    if mem s1 == mem s2 then rest else byte_diff (mem s1) (mem s2)

-- `while(n-- > 0) *--d = *--s;` from `s + n` and `d + n`.
unfoldable pub copy_down : Memory → ℕ → ℕ → ℕ → Memory
copy_down mem dst src zero = mem
copy_down mem dst src (suc n) = copy_down (update mem (dst + n) (mem (src + n))) dst src n

-- `while(n-- > 0) *d++ = *s++;`
unfoldable pub copy_up : Memory → ℕ → ℕ → ℕ → Memory
copy_up mem dst src zero = mem
copy_up mem dst src (suc n) = copy_up (update mem dst (mem src)) (dst + 1) (src + 1) n

unfoldable pub memmove : Memory → ℕ → ℕ → ℕ → Memory
unfolding copy_down copy_up
memmove mem dst src n =
    if ltb src dst && ltb dst (src + n) then copy_down mem dst src n else copy_up mem dst src n
