-- ===== src/Proc/Infos.antt =====
-- About getProcInfo.
use project4final.Proc.Life.{infos_from, get_proc_info, add_info, ProcInfo, int_lt}
use project4final.Proc.View.{state_of}
use project4final.Proc.Table.{
  Ptable, ProcState, unused, same_state, nproc, embryo, sleeping, runnable, running, zombie,
}
use project4final.Prelude.{
  ℕ, ◌≡◌, ◌≤◌, true, ◌<◌, ◌⊎◌, ◌+◌, false, ◌≢◌, inl, none, inr, stop, null_pointer, arith, suc,
  ℕ_discrete, refl, ap, Option, ◌∙◌, ◌>>=◌, Outcome, sym, ok, List, zero, if◌then◌else◌, length,
  some, minus_one,
}

unused-cases :
    (s : ProcState)
    → ((same_state s unused ≡ true) × (s ≡ unused)) ⊎ ((same_state s unused ≡ false) × (s ≢ unused))
unused-cases unused = inl (refl, refl)
unused-cases embryo = inr (refl, λ e. cc)
unused-cases sleeping = inr (refl, λ e. cc)
unused-cases runnable = inr (refl, λ e. cc)
unused-cases running = inr (refl, λ e. cc)
unused-cases zombie = inr (refl, λ e. cc)

add_info-fault :
    (t : Ptable) (p : ℕ) (o : Option ℕ) (rest : Outcome (List ProcInfo))
    → (o ≡ none) ⊎ (rest ≡ stop null_pointer)
    → add_info t p o rest ≡ stop null_pointer
unfolding add_info
add_info-fault t p none rest h = refl
add_info-fault t p (some q) rest (inl e) = absurd (cc)
add_info-fault t p (some q) rest (inr e) = rw e refl

infos_from_faults :
    (k p : ℕ) (t : Ptable) (x : ℕ)
    → p ≤ x
    → x < p + k
    → state_of t x ≢ unused
    → (t.proc x).parent ≡ none
    → infos_from k p t ≡ stop null_pointer
unfolding infos_from
infos_from_faults zero p t x h l n e = absurd (omega arith)
infos_from_faults (suc k) p t x h l n e = elim (unused-cases (state_of t p)) [
  | inl (u, z) ↦ rw u (infos_from_faults k (suc p) t x (behind z) (omega arith) n e)
  | inr (u, z) ↦ rw u (
      add_info-fault t p (t.proc p).parent (infos_from k (suc p) t) (elim (ℕ_discrete x p) [
        | yes q ↦ inl (ap (λ y. (t.proc y).parent) (sym q) ∙ e)
        | no q ↦ inr (infos_from_faults k (suc p) t x (omega arith) (omega arith) n e)
      ]))
]
  where
    behind : state_of t p ≡ unused → suc p ≤ x
    behind z = elim (ℕ_discrete x p) [
      | yes q ↦ absurd (n (ap (state_of t) q ∙ z))
      | no q ↦ omega arith
    ]

-- getProcInfo goes through a null pointer on any table in which an entry that is in use has no parent.
pub get_proc_info_faults :
    (t : Ptable) (max x : ℕ)
    → x < nproc
    → state_of t x ≢ unused
    → (t.proc x).parent ≡ none
    → get_proc_info t max ≡ stop null_pointer
unfolding get_proc_info
get_proc_info_faults t max x l n e =
    ap (λ o. o >>= λ xs. ok (xs, if int_lt max (length xs) then minus_one else length xs))
      (infos_from_faults nproc 0 t x (omega arith) (omega arith) n e)
