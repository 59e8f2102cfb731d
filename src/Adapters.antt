-- ===== src/Adapters.antt =====
-- The provider adapters (providers/): what they send, and the answers and chunks that they make of what
-- comes back.
pub mod Base
pub mod Anthropic
pub mod Collected
pub mod Yielded
pub mod Streamed
pub mod Prompted
pub mod OpenAi
pub mod Plain
