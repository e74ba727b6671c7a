-- ===== src/Inst.antt =====
-- The instruction handlers, one child for each file of src/.
pub mod Decode
pub mod IType
pub mod MExtension
pub mod RType
pub mod Words
pub mod Load
pub mod Store
pub mod Branch
pub mod Jump
pub mod Fence
pub mod Atomic
pub mod Float
