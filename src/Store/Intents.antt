-- ===== src/Store/Intents.antt =====
-- What holds of the life of an intent in every run.
pub mod Terminal
pub mod Transition
pub mod Submission
