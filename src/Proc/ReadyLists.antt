-- ===== src/Proc/ReadyLists.antt =====
-- The list functions of proc.c, statement by statement. A walk along a list takes rounds of fuel, one
-- more than there are entries.
use project4final.Prelude.{
  ℕ, zero, suc, Option, none, some, ◌==◌, ltb, not, if◌then◌else◌, Outcome, ok, stop, null_pointer,
  out_of_bounds, out_of_fuel, ◌>>=◌, minus_one,
}
use project4final.Proc.Table.{
  Ptable, runnable, same_state, nproc, levels, set_next, set_ready, set_priority, next_of,
}

abbrev pub walk_fuel : ℕ
walk_fuel = 65

-- `while(temp->next != 0) temp = temp->next;`
unfoldable pub walk_to_last : ℕ → (ℕ → Option ℕ) → ℕ → Outcome ℕ
walk_to_last zero nx temp = stop out_of_fuel
walk_to_last (suc f) nx temp = elim (nx temp) [ none ↦ ok temp | some q ↦ walk_to_last f nx q ]

-- AddFreeList.
unfoldable pub add_free_list : Ptable → Option ℕ → Ptable × ℕ
unfolding set_next
add_free_list t none = (t, minus_one)
add_free_list t (some toadd) = elim t.free [
  | none ↦ (set_next (record t { free = some toadd }) toadd none, 0)
  | some rest ↦ (set_next (record t { free = some toadd }) toadd (some rest), 0)
]

-- RemoveFreeList.
unfoldable pub remove_free_list : Ptable → Ptable × Option ℕ
remove_free_list t = elim t.free [
  | none ↦ (t, none)
  | some p ↦ (record t { free = (t.proc p).next }, some p)
]

-- The part of AddReadyList behind the walk: `toadd->next = 0; temp->next = toadd;`.
unfoldable pub append_after : Ptable → ℕ → ℕ → Ptable
append_after t toadd temp = set_next (set_next t toadd none) temp (some toadd)

-- AddReadyList.
unfoldable pub add_ready_list : Ptable → ℕ → Outcome (Ptable × ℕ)
add_ready_list t toadd =
    let priority = (t.proc toadd).priority in
    if not (same_state (t.proc toadd).state runnable)
    then ok (t, minus_one)
    else if not (ltb priority levels)
    then stop out_of_bounds
    else elim (t.ready priority) [
      | none ↦ ok (set_next (set_ready t priority (some toadd)) toadd none, 0)
      | some head ↦
          walk_to_last walk_fuel (next_of t) head >>= λ temp. ok (append_after t toadd temp, 0)
    ]

-- The loop of RemoveReadyList, to the entry before `toremove`; `current` may run off the list.
unfoldable pub find_prev : ℕ → (ℕ → Option ℕ) → ℕ → (prev current : ℕ) → Outcome ℕ
find_prev zero nx toremove prev current = stop out_of_fuel
find_prev (suc f) nx toremove prev current =
    let rest : Outcome ℕ = elim (nx current) [
      | none ↦ stop null_pointer
      | some c ↦ find_prev f nx toremove current c
    ] in
    if current == toremove then ok prev else rest

-- RemoveReadyList.
unfoldable pub remove_ready_list : Ptable → ℕ → Outcome (Ptable × ℕ)
remove_ready_list t toremove =
    let priority = (t.proc toremove).priority in
    if not (ltb priority levels) then stop out_of_bounds else elim (t.ready priority) [
      | none ↦ ok (t, minus_one)
      | some head ↦ elim ((t.proc head).next) [
        | none ↦ ok (set_ready t priority none, 0)
        | some second ↦
            if head == toremove
            then ok (set_ready t priority (some second), 0)
            else find_prev walk_fuel (next_of t) toremove head head >>= λ prev.
                ok (set_next t prev (t.proc toremove).next, 0)
      ]
    ]

-- GetReady: `for(p = 0; p < 3; p++)`.
unfoldable pub get_ready_from : ℕ → (ℕ → Option ℕ) → ℕ → Option ℕ
get_ready_from zero ready p = none
get_ready_from (suc k) ready p =
    let rest : Option ℕ = get_ready_from k ready (suc p) in
    elim (ready p) [ none ↦ rest | some head ↦ some head ]

unfoldable pub get_ready : Ptable → Option ℕ
unfolding get_ready_from
get_ready t = get_ready_from 3 t.ready 0

-- One of the two parts of ResetPriority that add list `i` to the end of list 1.
unfoldable pub move_to_middle : Ptable → ℕ → Outcome Ptable
move_to_middle t i = elim (t.ready i) [
  | none ↦ ok t
  | some head ↦ elim (t.ready 1) [
    | none ↦ ok (set_ready (set_ready t 1 (some head)) i none)
    | some middle ↦ walk_to_last walk_fuel (next_of t) middle >>= λ temp.
        ok (set_ready (set_next t temp (some head)) i none)
  ]
]

-- The loop of ResetPriority, and of the other passes over the table: entry `p` and the `k - 1` behind.
unfoldable pub priorities_to_one : ℕ → ℕ → Ptable → Ptable
unfolding set_priority
priorities_to_one zero p t = t
priorities_to_one (suc k) p t = priorities_to_one k (suc p) (set_priority t p 1)

-- ResetPriority.
unfoldable pub reset_priority : Ptable → Outcome Ptable
unfolding priorities_to_one move_to_middle
reset_priority t = move_to_middle (priorities_to_one nproc 0 t) 0 >>= λ u. move_to_middle u 2

-- setpriority, which takes no lock: the first entry with this pid.
unfoldable pub setpriority_from : ℕ → ℕ → ℕ → ℕ → Ptable → Ptable
unfolding set_priority
setpriority_from zero p pid priority t = t
setpriority_from (suc k) p pid priority t =
    let rest : Ptable = setpriority_from k (suc p) pid priority t in
    if (t.proc p).pid == pid then set_priority t p priority else rest

unfoldable pub setpriority : Ptable → ℕ → ℕ → Ptable × ℕ
unfolding setpriority_from
setpriority t pid priority = (setpriority_from nproc 0 pid priority t, 0)
