-- ===== src/Pii.antt =====
-- services/pii-filter: what happens to the spans that the model reports.
pub mod Spans
pub mod Redaction
pub mod Stream
pub mod Conversation
