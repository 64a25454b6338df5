-- ===== src/Devis.antt =====
-- src/lib/services/devis.ts: the quotes, from the draft to the signature. A function takes what
-- it reads from outside the database: the clock, identifiers, tokens and PDF files; and, at the
-- points where it waits, what other requests do meanwhile.
pub mod Draft
pub mod Send
pub mod Sign
pub mod Status
pub mod Locked
pub mod Immutable
pub mod Decided
pub mod Interleaved
pub mod Issuer
