-- ===== src/Complaint.antt =====
-- The complaint: its life cycle, its deadlines and its service operations.
pub mod Status
pub mod Timeline
mod Tests
