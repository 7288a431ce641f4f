-- ===== src/Tests.antt =====
-- Concrete runs of the modelled code: the theorems of the header at inputs, and single results.
mod Small
mod Arrays
mod Heaps
mod Blocks
mod Frames
mod Texts
mod Screens
mod Keys
mod Tables
mod Releases
mod Chains
mod Ports
mod Starts
