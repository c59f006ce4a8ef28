-- ===== src/Examples.antt =====
-- Runs of the modelled code on concrete inputs, and the theorems at inputs that meet their hypotheses.
mod Connections
mod Codecs
mod Appends
mod Shares
mod Retries
mod Names
mod Lookups
mod Codes
mod Partitions
mod Scanners
mod Schemas
mod Predicates
mod Upserts
