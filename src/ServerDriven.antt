-- ===== src/ServerDriven.antt =====
-- serverdriven: the server-held tree, its capability gate, and the connection to a client.
pub mod Nodes
pub mod Gate
pub mod Driver
pub mod Connection
pub mod Fuel
pub mod Batches
pub mod Ungated
pub mod Window
pub mod WsFrame
pub mod Tests
