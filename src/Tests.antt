-- ===== src/Tests.antt =====
-- The theorems at concrete inputs.
mod Shader
mod Host
mod Io
mod Modules
mod Control
mod Translation
mod Order
mod Locals
