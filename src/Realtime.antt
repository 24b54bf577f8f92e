-- ===== src/Realtime.antt =====
-- Domain events and live connections: app/realtime/events.py and app/realtime/websocket_manager.py.
pub mod Events
pub mod Manager
pub mod Audience
pub mod Sessions
pub mod Fanout
mod Tests
