-- ===== src/Tests.antt =====
-- Runs of the definitions at concrete inputs, and an instance of each theorem that has
-- hypotheses.
pub mod Plain
pub mod SessionTests
pub mod StoreTests
pub mod LawTests
pub mod ProgressTests
pub mod ServiceTests
pub mod TurnTests
pub mod ModelTests
pub mod RewardTests
pub mod HistoryTests
pub mod WebTests
pub mod RuleTests
pub mod AuthTests
pub mod BreakthroughTests
