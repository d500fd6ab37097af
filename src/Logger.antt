-- ===== src/Logger.antt =====
-- pkg/logger: the sampler, the logger that it wraps, and the redaction of fields.
pub mod Sampler
pub mod Sampled
pub mod Zerolog
pub mod Redact
mod Tests
