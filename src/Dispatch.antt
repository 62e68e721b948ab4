-- ===== src/Dispatch.antt =====
-- server/lingxilearn/runtime/dispatch: which skill serves a capability, and one attempt at a task.
pub mod Binding
pub mod Attempt
mod Tests
