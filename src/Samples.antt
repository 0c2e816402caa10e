-- ===== src/Samples.antt =====
-- Concrete parameters and inputs, on which the theorems of the other modules are applied.
pub mod Tables
pub mod Stores
pub mod StoreWitnesses
pub mod ConvWitnesses
pub mod DecoderWitnesses
pub mod StartWitnesses
pub mod NegotiateWitnesses
pub mod FeederWitnesses
pub mod RelpWitnesses
pub mod ForwarderWitnesses
pub mod AckQueueWitnesses
pub mod RingWitnesses
pub mod FormatWitnesses
pub mod CountWitnesses
pub mod FrameWitnesses
