-- ===== src/Plan.antt =====
-- backend/src/modules/plan/plan.service.ts: `PlanService`. Ids, the clock and the result of the AI
-- pipeline enter as arguments.
pub mod Access
pub mod Items
pub mod Diversity
pub mod Drafts
pub mod Numbering
pub mod Guards
pub mod Versions
pub mod Touch
pub mod Saving
mod Tests
