-- ===== src/Store/Budget.antt =====
-- What holds of the budget of a grant and of the operator's caps after a reservation.
pub mod Windows
pub mod Reservation
