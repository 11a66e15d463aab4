-- ===== src/Conversation.antt =====
-- llama.rs: the conversation over a persistent KV cache. The children model its parts: `Window`
-- the context window and its eviction, `Generation` the loop that samples tokens, `Template` the
-- spans of the chat template, `Session` the turns of both sides, `Composed` what they add up to.
pub mod Window
pub mod Generation
pub mod Template
pub mod OneShot
pub mod Embedding
pub mod Session
pub mod Composed
pub mod Opening
pub mod Snapshot
