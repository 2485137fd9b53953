-- ===== src/Tasks.antt =====
-- Tasks and their state machine: src/lib/graft/task.cpp, include/lib/graft/task.h,
-- include/lib/graft/state_machine.h and include/lib/graft/expiring_list.h.
pub mod Status
pub mod Machine
pub mod ExpiringList
pub mod Manager
pub mod Upstream
mod Examples
