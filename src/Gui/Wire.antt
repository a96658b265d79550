-- ===== src/Gui/Wire.antt =====
-- protocols/gui-v1/src/wire.rs: the codec of the GUI protocol.
pub mod Codes
pub mod Bytes
pub mod Header
pub mod Utf8
pub mod Cursor
pub mod Writer
pub mod Request
pub mod Event
pub mod Parses
pub mod RoundTrip
pub mod Framing
pub mod Codec
pub mod Reads
pub mod Canonical
mod Examples
