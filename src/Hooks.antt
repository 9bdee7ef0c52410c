-- ===== src/Hooks.antt =====
-- app/web/src/hooks: the hooks that keep a state.
pub mod Dialogs
pub mod Tests
