-- ===== src/Examples.antt =====
-- Concrete inputs: an instance of each headline theorem, and tests by evaluation.
mod Encoding
mod Data
mod Frames
mod Order
mod Priority
mod Reading
mod Receiving
mod Serving
mod Spending
mod Starting
