-- ===== src/Samples.antt =====
-- Concrete values of the model's parameters, and the theorems at concrete inputs.
pub mod Scores
pub mod Outside
mod WorkerTests
mod RegistryTests
mod GraphTests
mod GenerationTests
mod AgreementTests
mod QueueTests
mod AuthTests
mod StepTests
mod ReplyTests
mod NodeTests
