-- ===== src/Proxy.antt =====
-- The tool proxy of src/proxy: `Approval` is a request for the approval of one tool call.
pub mod Approval
pub mod ApprovalCalls
pub mod ApprovalInv
pub mod ApprovalReached
mod Tests
