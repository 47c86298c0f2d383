-- ===== src/Okf.antt =====
-- rust/src/okf: the Open Knowledge Format rules over text.
pub mod ConceptId
pub mod Links
pub mod Examples
