-- ===== src/Tests.antt =====
-- Runs of the models on concrete inputs.
pub mod Whole
pub mod PromKeyRuns
pub mod TextRuns
pub mod EngineRuns
pub mod SpecRuns
pub mod ClusterRuns
pub mod SessionRuns
pub mod DirRuns
pub mod ManagerRuns
pub mod HookRuns
pub mod PresetRuns
pub mod ProcessRuns
pub mod DiskRuns
