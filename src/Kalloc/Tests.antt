-- ===== src/Kalloc/Tests.antt =====
-- An empty list of free pages, a list of one, and the theorems at them. The kernel ends at KERNBASE.
use project4final.Kalloc.Pages.{kfree_frees, kalloc_cases, HasFree, IsPage}
use project4final.Kalloc.Free.{Kmem, kfree, kalloc, page_size, kern_base}
use project4final.Prelude.{ℕ, arith, ◌≡◌, ◌∷◌, ok, [], refl, ◌+◌, ◌⊎◌, ◌≤◌, List, ◌<◌}

abbrev no_pages : Kmem
no_pages = record { mem = λ x. 0; freelist = 0 }

abbrev one_page : Kmem
one_page = record { mem = λ x. 0; freelist = kern_base }

kern_base-IsPage : IsPage kern_base kern_base
kern_base-IsPage = (refl, omega arith, omega arith, omega arith)

kfree_frees_example :
    (k' : Kmem) × (kfree kern_base no_pages kern_base ≡ ok k')
    × HasFree kern_base k' (kern_base ∷ [])
    × ((x : ℕ) → kern_base + 4 ≤ x → x < kern_base + page_size → k'.mem x ≡ 1)
    × ((x : ℕ) → (x < kern_base) ⊎ (kern_base + page_size ≤ x) → k'.mem x ≡ no_pages.mem x)
kfree_frees_example = kfree_frees kern_base no_pages kern_base [] (refl, tt) kern_base-IsPage tt

kalloc_cases_example :
    ((kern_base ∷ [] ≡ []) × (kalloc one_page ≡ (one_page, 0)))
    ⊎ ((v : ℕ) × (rest : List ℕ) × (kern_base ∷ [] ≡ v ∷ rest)
        × ((kalloc one_page).1 ≡ v)
        × ((kalloc one_page).0.mem ≡ one_page.mem)
        × IsPage kern_base v
        × HasFree kern_base (kalloc one_page).0 rest)
kalloc_cases_example =
    kalloc_cases kern_base one_page (kern_base ∷ []) ((refl, kern_base-IsPage, refl), (tt, tt))
