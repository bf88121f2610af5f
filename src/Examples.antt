-- ===== src/Examples.antt =====
-- Runs of the model, and the theorems at concrete inputs.
mod Audit
mod Store
mod Outbox
mod Services
mod Enrollments
mod Acme
mod Messages
mod Http
mod Caa
mod Issuance
mod Responders
