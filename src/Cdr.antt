-- ===== src/Cdr.antt =====
-- cdr/cdr.go: the CDR serialisation of message structs.
pub mod Result
pub mod Wire
pub mod Types
pub mod Encode
pub mod Decode
pub mod Words
pub mod Reads
pub mod Fits
pub mod Scalars
pub mod Carries
pub mod Containers
pub mod RoundTrip
pub mod Safety
pub mod Shape
mod Examples
