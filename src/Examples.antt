-- ===== src/Examples.antt =====
-- Concrete runs of the models: the theorems applied to rules, requests and calls written out.
mod Rules
mod Registry
mod Credentials
mod Connectors
mod Usage
mod Attachments
mod Relay
mod Fixture
mod Handshake
mod Sessions
mod Orders
mod Admissions
mod Pairing
