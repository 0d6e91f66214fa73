-- ===== src/Control.antt =====
-- internal/control: the hub of instance connections and the control server.
pub mod Hub
pub mod Server
pub mod Stream
