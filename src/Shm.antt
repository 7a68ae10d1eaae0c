-- ===== src/Shm.antt =====
-- Relative addresses in a shared segment: the first part of src/opa_queue.h, and OPA_Shm_asymm_init of
-- src/opa_queue.c. Addresses and offsets are 64-bit patterns.
use open_pa.Base.{ℕ, ◌≡◌, ◌+◌, ◌-◌, ◌%◌, ◌^◌, ◌==◌, if◌then◌else◌, Bool, not}
pub mod Address

abbrev pub address_mod : ℕ
address_mod = 2 ^ 64

-- OPA_SHM_ASYMM_NULL_VAL: the base address before it is initialized.
abbrev pub asymm_null_val : ℕ
asymm_null_val = 64

-- OPA_SHM_REL_NULL
abbrev pub rel_null : ℕ
rel_null = 0

-- The error code, and the base address afterwards.
unfoldable pub asymm_init : (base asymm_base_addr : ℕ) → ℕ × ℕ
asymm_init base asymm_base_addr =
    if not (asymm_base_addr == asymm_null_val) then (16, asymm_base_addr) else (0, base)

abbrev pub is_rel_null : ℕ → Bool
is_rel_null rel_ptr = rel_ptr == rel_null

abbrev pub rel_are_equal : ℕ → ℕ → Bool
rel_are_equal rel_ptr1 rel_ptr2 = rel_ptr1 == rel_ptr2

-- The assertions that the base address is initialized are compiled away.
unfoldable pub rel_to_abs : (asymm_base_addr r : ℕ) → ℕ
rel_to_abs asymm_base_addr r = (asymm_base_addr + r) % address_mod

unfoldable pub abs_to_rel : (asymm_base_addr a : ℕ) → ℕ
abs_to_rel asymm_base_addr a = (a + address_mod - asymm_base_addr) % address_mod

-- The old value, and the value that `*addr` holds afterwards.
unfoldable pub swap_rel : (addr newv : ℕ) → ℕ × ℕ
swap_rel addr newv = (addr, newv)

unfoldable pub cas_rel_null : (addr oldv : ℕ) → ℕ × ℕ
cas_rel_null addr oldv = (addr, if addr == oldv then rel_null else addr)
