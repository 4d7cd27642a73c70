-- ===== src/Examples.antt =====
-- Runs of the model on concrete inputs, and each theorem at an input that meets its hypotheses.
mod Data
mod Getters
mod Keys
mod Debounce
mod Sticks
mod Reports
mod Rumble
mod Led
mod Utils
mod Daemon
mod Nsw
mod Worker
mod Bus
mod Monitor
mod Commands
mod Console
