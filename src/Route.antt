-- ===== src/Route.antt =====
-- internal/route: the route matcher and the generations that it serves.
pub mod Rule
pub mod Request
pub mod Match
pub mod Normalize
pub mod Overlap
pub mod Generation
pub mod Attachments
