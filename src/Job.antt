-- ===== src/Job.antt =====
-- utils/job/: a list of jobs and the display of their statuses.
pub mod Jobs
pub mod Board
mod Tests
