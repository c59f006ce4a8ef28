-- ===== src/Schema.antt =====
-- The schemas of pkg/fgo: types, values, columns and keys (logical_type.go, model.go), the stable ids
-- of columns, and how rows follow a schema that evolves (schema_resolver.go).
pub mod Types
pub mod Values
pub mod Model
pub mod Ids
pub mod Evolve
pub mod Cache
