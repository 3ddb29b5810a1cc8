-- ===== src/Route.antt =====
-- Routing between interfaces (lib/src/v7_routing.c).
pub mod Table
mod Tests
