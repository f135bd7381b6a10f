-- ===== src/Files/Ftable.antt =====
-- The table of open files of file.c, and the descriptors of a process in sysfile.c. A pointer to a file is its index;
-- the locked sections of file.c are one step each. fileclose gives back the file that its caller has to finish: the
-- pipe to close, or the inode to put.
use project4final.Prelude.{
  ℕ, Option, Bool, update, none, ◌==◌, Outcome, if◌then◌else◌, ◌||◌, stop, leb, ok, suc, ◌+◌, ◌^◌,
  panic, minus_one, some, ◌%◌, ltb, ◌-◌, ◌>>=◌, zero,
}

abbrev pub nofile : ℕ
nofile = 16

abbrev pub nfile : ℕ
nfile = 100

pub data FileType : Type 0 where
  fd_none fd_pipe fd_inode : FileType

-- struct file; `ref` is an int.
pub record File : Type 0 where
  pub type : FileType
  pub ref : ℕ
  pub readable : ℕ
  pub writable : ℕ
  pub pipe : ℕ
  pub ip : ℕ
  pub off : ℕ

abbrev pub Ftable : Type 0
Ftable = ℕ → File

abbrev pub with_ref : Ftable → ℕ → ℕ → Ftable
with_ref ft f n = update ft f (record (ft f) { ref = n })

-- The loop of filealloc from file `f` on, `k` of them.
unfoldable pub filealloc_from : ℕ → ℕ → Ftable → Ftable × Option ℕ
filealloc_from zero f ft = (ft, none)
filealloc_from (suc k) f ft =
    let rest : Ftable × Option ℕ = filealloc_from k (f + 1) ft in
    if (ft f).ref == 0 then (with_ref ft f 1, some f) else rest

unfoldable pub filealloc : Ftable → Ftable × Option ℕ
unfolding filealloc_from
filealloc ft = filealloc_from nfile 0 ft

-- `f->ref < 1` of an int.
abbrev pub no_reference : File → Bool
no_reference f = f.ref == 0 || leb (2 ^ 31) f.ref

unfoldable pub filedup : Ftable → ℕ → Outcome Ftable
filedup ft f =
    if no_reference (ft f) then stop panic else ok (with_ref ft f (((ft f).ref + 1) % 2 ^ 32))

unfoldable pub fileclose : Ftable → ℕ → Outcome (Ftable × Option File)
fileclose ft f =
    if no_reference (ft f)
    then stop panic
    else if ltb 0 ((ft f).ref - 1)
    then ok (with_ref ft f ((ft f).ref - 1), none)
    else ok
        (update ft f (record (ft f) { ref = 0; type = fd_none }), some (record (ft f) { ref = 0 }))

-- The open files of a process.
abbrev pub Ofile : Type 0
Ofile = ℕ → Option ℕ

-- A descriptor with the file that is open on it.
abbrev pub with_file : ℕ → Option ℕ → Option (ℕ × ℕ)
with_file fd none = none
with_file fd (some f) = some (fd, f)

-- argfd of what its argint gives: the descriptor and its file.
unfoldable pub argfd : Ofile → Option ℕ → Option (ℕ × ℕ)
argfd ofile none = none
argfd ofile (some fd) = if leb (2 ^ 31) fd || leb nofile fd then none else with_file fd (ofile fd)

-- The loop of fdalloc from descriptor `fd` on, `k` of them.
unfoldable pub fdalloc_from : ℕ → ℕ → Ofile → ℕ → Ofile × Option ℕ
fdalloc_from zero fd ofile f = (ofile, none)
fdalloc_from (suc k) fd ofile f =
    let rest : Ofile × Option ℕ = fdalloc_from k (fd + 1) ofile f in
    elim (ofile fd) [ none ↦ (update ofile fd (some f), some fd) | some g ↦ rest ]

unfoldable pub fdalloc : Ofile → ℕ → Ofile × Option ℕ
unfolding fdalloc_from
fdalloc ofile f = fdalloc_from nofile 0 ofile f

-- The files of the system, and of every process by its entry.
pub record Files : Type 0 where
  pub ftable : Ftable
  pub ofile : ℕ → Ofile

-- sys_dup behind its fdalloc, of file `f`.
unfoldable pub dup_to : Files → ℕ → ℕ → Ofile × Option ℕ → Outcome (Files × ℕ)
unfolding filedup
dup_to s p f (ofile, none) = ok (s, minus_one)
dup_to s p f (ofile, some fd) =
    filedup s.ftable f >>= λ ft. ok (record { ftable = ft; ofile = update s.ofile p ofile }, fd)

unfoldable pub dup_found : Files → ℕ → Option (ℕ × ℕ) → Outcome (Files × ℕ)
unfolding fdalloc dup_to
dup_found s p none = ok (s, minus_one)
dup_found s p (some (fd, f)) = dup_to s p f (fdalloc (s.ofile p) f)

-- sys_dup by process `p`, of what argint gives for its argument, with the int that it returns.
unfoldable pub sys_dup : Files → ℕ → Option ℕ → Outcome (Files × ℕ)
unfolding argfd dup_found
sys_dup s p arg = dup_found s p (argfd (s.ofile p) arg)

-- sys_close, likewise, with the file that is left to finish.
unfoldable pub close_found : Files → ℕ → Option (ℕ × ℕ) → Outcome (Files × Option File × ℕ)
unfolding fileclose
close_found s p none = ok (s, none, minus_one)
close_found s p (some (fd, f)) = fileclose s.ftable f >>= λ r.
    ok (record { ftable = r.0; ofile = update s.ofile p (update (s.ofile p) fd none) }, r.1, 0)

unfoldable pub sys_close : Files → ℕ → Option ℕ → Outcome (Files × Option File × ℕ)
unfolding argfd close_found
sys_close s p arg = close_found s p (argfd (s.ofile p) arg)
