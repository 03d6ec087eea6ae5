-- ===== src/Chat.antt =====
-- gday_chat/src: offering files to a peer, choosing among them, and sending them.
pub mod Protocol
pub mod Dialog
pub mod Transfer
pub mod Overlap
pub mod Offer
pub mod Terminal
pub mod Run
mod Tests
