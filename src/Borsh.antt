-- ===== src/Borsh.antt =====
-- utils/borsh.js and utils/borshify-proof.js: values, the reader, the schema-driven codec and the
-- hand-written encodings.
pub mod Value
pub mod Reader
pub mod Codec
pub mod Schemas
pub mod Borshify
pub mod Tests
