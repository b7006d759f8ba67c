-- ===== src/Ring.antt =====
-- The ring daemon (crates/loa-ring): the strip's encoding, the choice of the tell, and what the
-- daemon holds of the feed.
pub mod Encode
pub mod Decode
pub mod Tells
pub mod Held
pub mod Replay
pub mod Curves
pub mod Render
pub mod Gated
mod Examples
