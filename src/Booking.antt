-- ===== src/Booking.antt =====
-- Booking: the tables of apps/booking and the services of services/booking.
pub mod Models
pub mod Availability
pub mod Inventory
pub mod Frame
pub mod Reservations
pub mod Bookable
pub mod Online
