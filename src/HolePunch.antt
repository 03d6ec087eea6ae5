-- ===== src/HolePunch.antt =====
-- gday_hole_punch/src: the server that two peers tell their contacts to, and what it sends back.
pub mod Contact
pub mod Messenger
pub mod State
pub mod Handler
pub mod Throttle
pub mod Service
pub mod Client
pub mod Peer
mod Tests
