-- ===== src/Jobs.antt =====
-- internal/jobs: the payloads of the jobs, and the worker of the onboard_org job.
pub mod Args
pub mod OnboardOrg
