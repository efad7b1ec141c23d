-- ===== src/Connection.antt =====
-- web/src/connection.ts, part by part: what it refuses (Guards), the selected candidate pair
-- (Stats), the control channel (Control, Requests), the log-in on a channel (Handshake), the requests
-- to the control plane (Api) and the connection itself (Session).
pub mod Guards
pub mod Stats
pub mod Control
pub mod Session
pub mod Handshake
pub mod Requests
pub mod Api
mod GuardsTests
mod SessionTests
mod ControlTests
mod HandshakeTests
mod RequestsTests
