-- ===== src/Evaluator.antt =====
-- evaluator.py: the evidence that counts, the judgement of each owner set, and the conclusion.
pub mod Reviews
pub mod Judgement
pub mod Evaluate
pub mod Coverage
pub mod Judged
pub mod Grouping
pub mod Correct
pub mod FailClosed
pub mod Total
pub mod Latest
pub mod Enrollment
pub mod LatestStep
pub mod LatestLoop
pub mod LatestReviews
