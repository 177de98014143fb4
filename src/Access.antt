-- ===== src/Access.antt =====
-- Who and what may be reached: the addresses of Moodle servers and the chatbots.
pub mod Url
pub mod Chat
