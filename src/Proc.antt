-- ===== src/Proc.antt =====
-- proc.c and proc.h: the process table, its free list and its three ready lists, and the operations
-- of the scheduler on them.
pub mod Table
pub mod ReadyLists
pub mod Chain
pub mod View
pub mod Fields
pub mod Sched
pub mod Enqueue
pub mod Add
pub mod Wakeup
pub mod Dispatch
pub mod Reset
pub mod Aging
pub mod Frame
pub mod Alloc
pub mod Kill
pub mod Turn
pub mod Setpriority
pub mod Rounds
mod Links
pub mod Life
mod Fork
mod Scan
mod Wait
mod Waking
mod Exit
mod Infos
mod LifeTests
mod Tests
