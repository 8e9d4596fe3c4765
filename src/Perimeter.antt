-- ===== src/Perimeter.antt =====
-- src/infrastructure/perimeter: the limits on requests.
pub mod Rate
pub mod Window
pub mod Body
pub mod Origin
pub mod Tests
