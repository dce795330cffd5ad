-- ===== src/Http.antt =====
-- The server's HTTP side: server/http.cxx (Message), server/router.cxx (Router) and server/controllers (Controllers).
pub mod Message
pub mod Router
pub mod Controllers
