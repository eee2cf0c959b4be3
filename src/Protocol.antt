-- ===== src/Protocol.antt =====
-- The FSKit wire protocol: internal/fskitproto/codec.go and protocol.go.
pub mod Codec
pub mod Message
pub mod Wire
pub mod Inversion
pub mod Descriptor
pub mod Frame
pub mod RoundTrip
mod Tests
