-- ===== src/Proc/Fields.antt =====
-- What the writes to the table change, and what they leave.
use project4final.Proc.ReadyLists.{remove_free_list, add_free_list}
use project4final.Prelude.{refl, ℕ, ◌≡◌, ◌≢◌, Option, update, fun_ext, arith, some}
use project4final.Proc.Table.{
  Ptable, ProcState, set_next, set_state, set_priority, set_ready, next_of,
}
use project4final.Proc.View.{state_of, priority_of}

module _ (t : Ptable) (a : ℕ) where
  pub next_of-set_next : (q : Option ℕ) → next_of (set_next t a q) ≡ update (next_of t) a q
  unfolding set_next
  next_of-set_next q = fun_ext λ x. ground arith

  pub next_of-set_state : (s : ProcState) → next_of (set_state t a s) ≡ next_of t
  unfolding set_state
  next_of-set_state s = fun_ext λ x. ground arith

  pub next_of-set_priority : (k : ℕ) → next_of (set_priority t a k) ≡ next_of t
  unfolding set_priority
  next_of-set_priority k = fun_ext λ x. ground arith

  pub next_of-set_ready : (q : Option ℕ) → next_of (set_ready t a q) ≡ next_of t
  unfolding set_ready
  next_of-set_ready q = refl

  pub state_of-set_next : (q : Option ℕ) (x : ℕ) → state_of (set_next t a q) x ≡ state_of t x
  unfolding set_next
  state_of-set_next q x = ground arith

  pub priority_of-set_next :
      (q : Option ℕ) (x : ℕ) → priority_of (set_next t a q) x ≡ priority_of t x
  unfolding set_next
  priority_of-set_next q x = ground arith

  pub priority_of-set_state :
      (s : ProcState) (x : ℕ) → priority_of (set_state t a s) x ≡ priority_of t x
  unfolding set_state
  priority_of-set_state s x = ground arith

  pub state_of-set_state_self : (s : ProcState) → state_of (set_state t a s) a ≡ s
  unfolding set_state
  state_of-set_state_self s = ground arith

  pub proc-set_next_ne : (q : Option ℕ) (x : ℕ) → x ≢ a → (set_next t a q).proc x ≡ t.proc x
  unfolding set_next
  proc-set_next_ne q x h = ground arith

  pub proc-set_state_ne : (s : ProcState) (x : ℕ) → x ≢ a → (set_state t a s).proc x ≡ t.proc x
  unfolding set_state
  proc-set_state_ne s x h = ground arith

  pub state_of-set_priority : (k x : ℕ) → state_of (set_priority t a k) x ≡ state_of t x
  unfolding set_priority
  state_of-set_priority k x = ground arith

  pub priority_of-set_priority_self : (k : ℕ) → priority_of (set_priority t a k) a ≡ k
  unfolding set_priority
  priority_of-set_priority_self k = ground arith

  pub priority_of-set_priority_ne :
      (k x : ℕ) → x ≢ a → priority_of (set_priority t a k) x ≡ priority_of t x
  unfolding set_priority
  priority_of-set_priority_ne k x h = ground arith

pub remove_free_list-some :
    (t : Ptable) (p : ℕ)
    → t.free ≡ some p
    → remove_free_list t ≡ (record t { free = next_of t p }, some p)
unfolding remove_free_list
remove_free_list-some t p e = rw (e, remove_free_list)

-- AddFreeList writes the old top, null or not, into the link of the new one.
pub add_free_list-some :
    (t : Ptable) (p : ℕ)
    → add_free_list t (some p) ≡ (set_next (record t { free = some p }) p t.free, 0)
unfolding add_free_list
add_free_list-some t p = ground arith
