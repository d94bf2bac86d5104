-- ===== src/Tasks.antt =====
-- src/services/task.service.ts with its repository, types and the release of claims: the tasks.
pub mod Paging
pub mod Status
pub mod Evidence
pub mod Table
pub mod Rows
pub mod Repository
pub mod Checks
pub mod Service
pub mod Valid
mod Examples
pub mod Completion
pub mod Claims
