-- ===== src/Files/Tests.antt =====
-- Two processes with a file open in both.
use project4final.Files.Counted.{IsCounted, descriptors}
use project4final.Prelude.{
  update, some, ℕ_discrete, subst, if◌then◌else◌, ◌==◌, ◌≡◌, arith, ◌||◌, none, sym, ne→==, refl,
}
use project4final.Files.Descriptors.{DupCases, CloseCases, sys_dup_cases, sys_close_cases}
use project4final.Files.Totals.{total}
use project4final.Files.Ftable.{File, Files, fd_none, fd_inode, sys_dup, sys_close}

abbrev no_file : File
no_file = record { type = fd_none; ref = 0; readable = 0; writable = 0; pipe = 0; ip = 0; off = 0 }

-- File 7 is open as descriptor 0 of processes 2 and 3.
abbrev two_open : Files
two_open = record {
  ftable = update (λ f. no_file) 7 (record no_file { ref = 2; type = fd_inode });
  ofile =
      λ p. if (p == 2) || (p == 3) then (λ fd. if fd == 0 then some 7 else none) else λ fd. none;
}

two_open-IsCounted : IsCounted two_open
unfolding total
two_open-IsCounted f = elim (ℕ_discrete f 7) [
  | yes q ↦ subst (λ f. (two_open.ftable f).ref ≡ descriptors two_open f) (sym q) refl
  | no q ↦ rw (ne→== f 7 q, ne→== 7 f (λ z. q (sym z))) refl
]

sys_dup_cases_example : DupCases two_open 2 (some 0) (sys_dup two_open 2 (some 0))
sys_dup_cases_example = sys_dup_cases two_open 2 (some 0) (omega arith) two_open-IsCounted

sys_close_cases_example : CloseCases two_open 2 (some 0) (sys_close two_open 2 (some 0))
sys_close_cases_example = sys_close_cases two_open 2 (some 0) (omega arith) two_open-IsCounted
