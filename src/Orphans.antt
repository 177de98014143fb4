-- ===== src/Orphans.antt =====
-- The detectors of leaked rows and objects (api/app/services/orphan_detection.py), and the selections
-- that they read (api/app/services/selection_service.py).
pub mod Selections
pub mod Detectors
pub mod Objects
pub mod Reports
