-- ===== src/Pipeline.antt =====
-- backend/src/modules/ai: the steps of the AI pipeline that plan a day out of places.
pub mod Places
pub mod Definitions
pub mod Registry
pub mod Search
pub mod Merging
pub mod Diversity
pub mod Scoring
pub mod Select
pub mod Picking
pub mod Pool
pub mod Filling
pub mod Candidates
pub mod Clock
pub mod Schedule
pub mod Spacing
pub mod Fitting
pub mod Route
pub mod Visiting
pub mod Beam
pub mod Choosing
pub mod Improving
pub mod Ranking
pub mod Winning
pub mod Run
pub mod Outcome
mod Trials
mod Tests
