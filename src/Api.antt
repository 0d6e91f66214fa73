-- ===== src/Api.antt =====
-- internal/api: the login limiter and the handlers of the REST interface.
pub mod Limiter
pub mod EventStream
pub mod Response
pub mod Access
pub mod Machines
pub mod Installations
pub mod Routes
pub mod Middleware
pub mod Meta
