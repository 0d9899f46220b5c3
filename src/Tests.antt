-- ===== src/Tests.antt =====
-- Runs of the theorems at concrete inputs.
mod Data
mod Vectors
mod Texts
mod Sets
mod Tables
mod Lists
mod Products
mod Forests
mod Cliques
mod Graphs
mod Networks
mod Messages
