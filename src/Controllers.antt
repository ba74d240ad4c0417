-- ===== src/Controllers.antt =====
-- app/controllers: the handlers of the routes. Each child is one router; a handler takes the member of
-- `get_current_member`, and `db` is the session of its request.
pub mod AlertRoutes
pub mod AuthRoutes
pub mod ClientRoutes
pub mod InstanceRoutes
pub mod MonitorRoutes
