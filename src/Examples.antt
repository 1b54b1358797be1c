-- ===== src/Examples.antt =====
-- Concrete worlds and the theorems at concrete inputs.
mod World
mod Server
mod Site
mod Http
mod Virtual
mod Network
mod Slots
mod Requests
mod Cdc
mod Backend
mod Pipes
mod Bridge
mod Naming
mod Discovery
mod LogServer
