-- ===== src/Superseded.antt =====
-- The middlebox before the present one, in deprecated/, and the server that it was tried with.
pub mod DynamicArray
pub mod Processing
pub mod Server
pub mod Api
