-- ===== src/Domain.antt =====
-- internal/domain and internal/aggregation: the state of a workflow and the aggregation of scores.
pub mod State
pub mod StateLaws
pub mod Score
pub mod Answer
pub mod Evaluation
pub mod Judgement
pub mod Dimensions
pub mod DimensionLaws
pub mod Winner
pub mod WinnerLaws
pub mod Winners
pub mod Verdict
pub mod Tests
