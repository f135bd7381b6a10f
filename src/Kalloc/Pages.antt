-- ===== src/Kalloc/Pages.antt =====
-- About kfree and kalloc: the free pages as a list.
use project4final.Kalloc.Free.{
  page_size, kern_base, phys_top, Kmem, next_of_run, set_next_of_run, kfree, kalloc,
}
use project4final.Text.Memory.{Memory, memset}
use project4final.Text.Moves.{memset_fills}
use project4final.Prelude.{
  ℕ, ◌%◌, List, ◌<◌, ◌+◌, ◌≡◌, Distinct, ◌⊎◌, ◌^◌, ◌≤◌, ◌∷◌, update_ne, arith, inr, ◌≢◌, Fresh,
  update, ◌∙◌, subst, [], refl, ◌/◌, sym, ok, inl, eq→==, ap, ne→==,
}

-- An address that kfree takes: a page of the kernel's map of physical memory, behind the kernel.
abbrev pub IsPage : ℕ → ℕ → Type 0
IsPage kernel_end v =
    (v % page_size ≡ 0) × (kernel_end ≤ v) × (kern_base ≤ v) × (v < kern_base + phys_top)

-- The list of free pages that starts at `p`.
abbrev pub FreePages : ℕ → Memory → ℕ → List ℕ → Type 0
FreePages kernel_end mem p [] = p ≡ 0
FreePages kernel_end mem p (x ∷ xs) =
    (p ≡ x) × IsPage kernel_end x × FreePages kernel_end mem (next_of_run mem x) xs

-- The memory and its list stand for the free pages, none of them twice.
abbrev pub HasFree : ℕ → Kmem → List ℕ → Type 0
HasFree kernel_end k pages = FreePages kernel_end k.mem k.freelist pages × Distinct pages

set_next_of_run-out :
    (mem : Memory) (a w x : ℕ) → (x < a) ⊎ (a + 4 ≤ x) → set_next_of_run mem a w x ≡ mem x
unfolding set_next_of_run
set_next_of_run-out mem a w x h =
    update_ne
      (update (update (update mem a (w % 256)) (a + 1) (w / 2 ^ 8 % 256)) (a + 2)
        (w / 2 ^ 16 % 256))
      (a + 3) (w / 2 ^ 24 % 256) x (λ q. omega arith)
    ∙ update_ne (update (update mem a (w % 256)) (a + 1) (w / 2 ^ 8 % 256)) (a + 2)
        (w / 2 ^ 16 % 256) x (λ q. omega arith)
    ∙ update_ne (update mem a (w % 256)) (a + 1) (w / 2 ^ 8 % 256) x (λ q. omega arith)
    ∙ update_ne mem a (w % 256) x (λ q. omega arith)

next_of_run-set_next_of_run :
    (mem : Memory) (a w : ℕ) → w < 2 ^ 32 → next_of_run (set_next_of_run mem a w) a ≡ w
unfolding set_next_of_run
next_of_run-set_next_of_run mem a w h = ground arith

module _ (kernel_end : ℕ) (k : Kmem) (v : ℕ) where
  abbrev freed : Memory
  freed = set_next_of_run (memset k.mem v 1 page_size) v k.freelist

  -- The bytes outside of the page stay.
  freed-out : (x : ℕ) → (x < v) ⊎ (v + page_size ≤ x) → freed x ≡ k.mem x
  freed-out x h =
      set_next_of_run-out (memset k.mem v 1 page_size) v k.freelist x (omega arith)
      ∙ (memset_fills k.mem v 1 page_size).1 x h

  freed-in : (x : ℕ) → v + 4 ≤ x → x < v + page_size → freed x ≡ 1
  freed-in x h l =
      set_next_of_run-out (memset k.mem v 1 page_size) v k.freelist x (inr h)
      ∙ (memset_fills k.mem v 1 page_size).0 x (omega arith) l

  next_of_run-freed :
      (x : ℕ)
      → x % page_size ≡ 0
      → v % page_size ≡ 0
      → x ≢ v
      → next_of_run freed x ≡ next_of_run k.mem x
  next_of_run-freed x h l n =
      rw
        (
          freed-out x (omega arith),
          freed-out (x + 1) (omega arith),
          freed-out (x + 2) (omega arith),
          freed-out (x + 3) (omega arith),
        )
        refl

  FreePages-freed :
      (p : ℕ) (pages : List ℕ)
      → v % page_size ≡ 0
      → Fresh v pages
      → FreePages kernel_end k.mem p pages
      → FreePages kernel_end freed p pages
  FreePages-freed p [] h f c = c
  FreePages-freed p (x ∷ pages) h f c = (
    c.0,
    c.1,
    subst (λ q. FreePages kernel_end freed q pages) (sym (next_of_run-freed x c.1.0 h f.0))
        (FreePages-freed (next_of_run k.mem x) pages h f.1 c.2),
  )

FreePages-word :
    (kernel_end : ℕ) (mem : Memory) (p : ℕ) (pages : List ℕ)
    → FreePages kernel_end mem p pages
    → p < 2 ^ 32
FreePages-word kernel_end mem p [] c = omega (arith, c)
FreePages-word kernel_end mem p (x ∷ pages) c = omega (arith, c.0, c.1.3)

kfree-ok :
    (kernel_end : ℕ) (k : Kmem) (v : ℕ)
    → IsPage kernel_end v
    → kfree kernel_end k v ≡ ok (record { mem = freed kernel_end k v; freelist = v })
unfolding kfree
kfree-ok kernel_end k v i = ground arith

-- kfree of a page that is not free puts it at the front of the free pages; it fills the page with 1 but for its first
-- word and changes no byte outside of it.
pub kfree_frees :
    (kernel_end : ℕ) (k : Kmem) (v : ℕ) (pages : List ℕ)
    → HasFree kernel_end k pages
    → IsPage kernel_end v
    → Fresh v pages
    → (k' : Kmem) × (kfree kernel_end k v ≡ ok k')
      × HasFree kernel_end k' (v ∷ pages)
      × ((x : ℕ) → v + 4 ≤ x → x < v + page_size → k'.mem x ≡ 1)
      × ((x : ℕ) → (x < v) ⊎ (v + page_size ≤ x) → k'.mem x ≡ k.mem x)
kfree_frees kernel_end k v pages h i f = (
  record { mem = freed kernel_end k v; freelist = v },
  kfree-ok kernel_end k v i,
  (
    (
      refl,
      i,
      subst (λ q. FreePages kernel_end (freed kernel_end k v) q pages)
          (sym (
            next_of_run-set_next_of_run (memset k.mem v 1 page_size) v k.freelist
              (FreePages-word kernel_end k.mem k.freelist pages h.0)))
          (FreePages-freed kernel_end k v k.freelist pages i.0 f h.0),
    ),
    (f, h.1),
  ),
  freed-in kernel_end k v,
  freed-out kernel_end k v,
)

-- kalloc returns 0 and changes nothing if no page is free; else it returns the first free page, and the others stay
-- free.
pub kalloc_cases :
    (kernel_end : ℕ) (k : Kmem) (pages : List ℕ)
    → HasFree kernel_end k pages
    → ((pages ≡ []) × (kalloc k ≡ (k, 0)))
      ⊎ ((v : ℕ) × (rest : List ℕ) × (pages ≡ v ∷ rest)
          × ((kalloc k).1 ≡ v)
          × ((kalloc k).0.mem ≡ k.mem)
          × IsPage kernel_end v
          × HasFree kernel_end (kalloc k).0 rest)
unfolding kalloc
kalloc_cases kernel_end k [] h = inl (refl, rw (eq→== k.freelist 0 h.0) (ap (λ q. (k, q)) h.0))
kalloc_cases kernel_end k (x ∷ rest) h =
    rw (ne→== k.freelist 0 (λ q. omega (arith, q, h.0.0, h.0.1.2))) (
      inr (
        x,
        rest,
        refl,
        h.0.0,
        refl,
        h.0.1,
        (
          subst (λ q. FreePages kernel_end k.mem (next_of_run k.mem q) rest) (sym h.0.0) h.0.2,
          h.1.1,
        ),
      ))
