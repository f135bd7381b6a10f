-- ===== src/Kalloc/Free.antt =====
-- kfree and kalloc of kalloc.c, with kmem.lock held where it is in use. The free pages are linked through their first
-- words; null is 0. `kernel_end` is the address `end` that the linker gives.
use project4final.Text.Memory.{Memory, memset}
use project4final.Prelude.{
  ℕ, ◌^◌, ◌+◌, update, Outcome, if◌then◌else◌, ◌*◌, ◌%◌, ◌-◌, not, ◌/◌, ◌==◌, ◌||◌, ltb, leb, stop,
  panic, ok,
}

abbrev pub page_size : ℕ
page_size = 4096

abbrev pub kern_base : ℕ
kern_base = 2 ^ 31

abbrev pub phys_top : ℕ
phys_top = 234881024

-- The memory, and kmem's list.
pub record Kmem : Type 0 where
  pub mem : Memory
  pub freelist : ℕ

-- `r->next` and `r->next = w`.
abbrev pub next_of_run : Memory → ℕ → ℕ
next_of_run mem a = mem a + mem (a + 1) * 2 ^ 8 + mem (a + 2) * 2 ^ 16 + mem (a + 3) * 2 ^ 24

unfoldable pub set_next_of_run : Memory → ℕ → ℕ → Memory
set_next_of_run mem a w =
    update
      (update (update (update mem a (w % 256)) (a + 1) (w / 2 ^ 8 % 256)) (a + 2)
        (w / 2 ^ 16 % 256))
      (a + 3) (w / 2 ^ 24 % 256)

abbrev pub v2p : ℕ → ℕ
v2p a = (a + 2 ^ 32 - kern_base) % 2 ^ 32

unfoldable pub kfree : ℕ → Kmem → ℕ → Outcome Kmem
unfolding set_next_of_run
kfree kernel_end k v =
    if not (v % page_size == 0) || ltb v kernel_end || leb phys_top (v2p v)
    then stop panic
    else ok
        (record { mem = set_next_of_run (memset k.mem v 1 page_size) v k.freelist; freelist = v })

unfoldable pub kalloc : Kmem → Kmem × ℕ
kalloc k =
    if not (k.freelist == 0)
    then (record k { freelist = next_of_run k.mem k.freelist }, k.freelist)
    else (k, k.freelist)
