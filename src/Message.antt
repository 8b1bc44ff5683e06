-- ===== src/Message.antt =====
-- Message text (src/utils/splitMessage.ts): a text is cut into chunks that Discord accepts. `Plain`
-- cuts at line ends, and `Fence` closes and reopens the code fences that a cut runs through.
pub mod Text
pub mod Plain
pub mod Fence
pub mod Bounds
pub mod Content
pub mod FenceBounds
mod Tests
