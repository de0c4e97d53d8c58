-- ===== src/Sv2.antt =====
-- Stratum V2 on the wire: sv2_codec.hpp and sv2_messages.hpp.
pub mod Writer
pub mod Reader
pub mod Decodes
pub mod Numbers
pub mod Blobs
pub mod Stable
pub mod Frame
pub mod Client
pub mod Server
