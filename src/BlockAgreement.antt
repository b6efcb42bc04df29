-- ===== src/BlockAgreement.antt =====
-- blockagreement/: votes and their hashes, the propose protocol, graded consensus and the rounds of
-- block agreement.
pub mod Messages
pub mod Propose
pub mod GradedConsensus
pub mod Driver
