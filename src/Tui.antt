-- ===== src/Tui.antt =====
-- The selection lists of src/tui.c.
pub mod Window
pub mod Collect
pub mod Spec
