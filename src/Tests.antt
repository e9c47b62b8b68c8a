-- ===== src/Tests.antt =====
-- Runs of the models on small inputs, by the parts of the service.
pub mod Samples
mod DomainRuns
mod StoreRuns
mod ApplicationRuns
mod GuardRuns
mod AuthRuns
mod CacheRuns
mod ProjectionRuns
mod KafkaRuns
mod TokenRuns
