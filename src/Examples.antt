-- ===== src/Examples.antt =====
-- The theorems applied to concrete inputs.
mod Status
mod Tab
mod Trade
mod Listener
mod Network
mod Book
mod Image
mod Solver
mod Router
mod Keys
mod Interface
mod Taking
mod Sidebar
