-- ===== src/Api.antt =====
-- middlebox/src/api.c, the application: merging client requests and steering server replies.
pub mod Keys
pub mod Payload
pub mod Signature
pub mod State
pub mod Group
pub mod Flush
pub mod Client
pub mod Server
pub mod Sound
pub mod Trip
pub mod Run
