-- ===== src/Main.antt =====
-- cmd/owlwatch/main.go: the settings read from the environment, and the pump of samples to the store.
pub mod Config
pub mod Persist
