-- ===== src/Tests.antt =====
-- Concrete runs of the models, and each property at a concrete input.
mod HistogramRuns
mod DriveRuns
mod ChecksRuns
mod CampaignRuns
mod CapacityRuns
mod SysprobeRuns
mod BridgeRuns
mod CatalogRuns
mod WorkerRuns
mod ReportRuns
mod RefillRuns
mod RunnerRuns
mod CounterRuns
mod HostRuns
mod SelectionRuns
mod MqttiumRuns
mod ResumeRuns
mod AwaitedRuns
mod FigureRuns
