-- ===== src/Led.antt =====
-- The onboard RGB LED: which pattern wins (src/led_priority.c) and how it is rendered
-- (src/led_controller.c).
pub mod Priority
pub mod Controller
