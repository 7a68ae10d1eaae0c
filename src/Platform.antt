-- ===== src/Platform.antt =====
-- The headers of src/primitives, one module each: the operations of one platform.
pub mod Ppc
pub mod Arm
pub mod GccIntrinsics
pub mod X86
pub mod Sun
pub mod PentiumThree
pub mod Nt
pub mod Sicortex
pub mod Unsafe
pub mod Ia64
pub mod Stdatomic
