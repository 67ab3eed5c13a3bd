-- ===== src/Sessions.antt =====
-- Seats of in-person sessions: session_booking.go of user-service/internal/repository and sessions.go
-- of user-service/internal/handlers.
pub mod Bookings
pub mod Capacity
pub mod Interleavings
