-- ===== src/Send.antt =====
-- What the user types to send and how received bytes are shown: src/win32/native_send_codec.h and
-- .cpp.
pub mod Parse
pub mod Print
pub mod Payload
pub mod HexLaws
pub mod HexErrors
pub mod DecimalLaws
pub mod BinaryLaws
pub mod PayloadLaws
pub mod Examples
