-- ===== src/Tasks.antt =====
-- mt-core/tasks-base/src/cpp: tasks that work off a queue of workloads.
pub mod WorkerTask
mod Tests
