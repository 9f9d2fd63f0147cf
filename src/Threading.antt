-- ===== src/Threading.antt =====
-- threading/src/cpp/lib: the task pool, its tasks, and notifications.
pub mod Taskpool
pub mod Notification
pub mod StateMachineTask
mod Tests
