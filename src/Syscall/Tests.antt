-- ===== src/Syscall/Tests.antt =====
-- A process with two arguments on its stack, and the theorems at it.
use project4final.Syscall.Args.{UserSpace, fetchint, argint, argptr}
use project4final.Syscall.Within.{argptr_iff, argptr_takes_negative}
use project4final.Prelude.{
  some, ◌≡◌, minus_one, if◌then◌else◌, ◌==◌, ◌↔◌, refl, leb, ◌+◌, ◌<◌, ◌&&◌, ◌≤◌, ltb, arith, ◌^◌,
  ◌-◌,
}

-- A page; the stack has the return address at 4000, then the arguments 100 and -1. The string at 100 is "hi".
abbrev user_space : UserSpace
user_space = record {
  sz = 4096;
  esp = 4000;
  mem = λ x.
      if x == 100
      then b'h'
      else if x == 101
      then b'i'
      else if x == 4004
      then 100
      else if leb 4008 x && ltb x 4012
      then 255
      else 0;
}

fetchint-user_space : fetchint user_space 4008 ≡ some minus_one
unfolding fetchint
fetchint-user_space = refl

argptr_iff_example :
    (argptr user_space 0 40 ≡ some 100)
    ↔ ((argint user_space 0 ≡ some 100) × (100 < user_space.sz) × (100 + 40 ≤ user_space.sz))
argptr_iff_example = argptr_iff user_space 0 40 100 (omega arith) (omega arith)

fetched_pointer : argint user_space 0 ≡ some 100
unfolding argint
fetched_pointer = refl

argptr_takes_negative_example : argptr user_space 0 (2 ^ 32 - 1) ≡ some 100
argptr_takes_negative_example =
    argptr_takes_negative user_space 0 1 100 fetched_pointer (omega arith) (omega arith)
      (omega arith) (omega arith)
