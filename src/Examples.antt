-- ===== src/Examples.antt =====
-- Tests of the definitions and the theorems at concrete inputs, a module per component.
mod Lists
mod Epochs
mod Hazards
mod Fallback
mod Pool
mod Filter
mod Sets
mod Reclaim
mod Reclaimed
mod Trees
mod Guarded
mod Pruned
mod Handovers
mod Tickets
mod Skips
mod Turns
mod Slots
