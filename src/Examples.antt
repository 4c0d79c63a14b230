-- ===== src/Examples.antt =====
-- Tests, and each theorem at a concrete input.
mod SampleNet
mod OvnExamples
mod SegmentExamples
mod SampleEquality
mod ConfigExamples
mod DesiredExamples
mod RoutesExamples
mod WatchExamples
mod GatewayExamples
mod FlowExamples
mod StaleExamples
mod NorthboundExamples
