-- ===== src/Examples.antt =====
-- Runs of the definitions, and the theorems applied to concrete inputs.
mod Transport
mod Framing
mod Codecs
mod Clients
mod Audio
mod Bridges
mod Streams
mod Loop
mod Cameras
