-- ===== src/Memory/Virtual/Entry.antt =====
-- kernel/src/memory/virtual_memory.hpp: `PageTableEntry`, a word of 64 bits.
use pocky.Common.{ℕ, ◌-◌, ◌^◌, bit_and, bit_or, Bool, not, if◌then◌else◌, ◌==◌}

-- `value & (1ULL << k)`, as a condition
unfoldable pub has_flag : ℕ → ℕ → Bool
has_flag k value = not (bit_and value (2 ^ k) == 0)

-- `~(1ULL << k)`
abbrev pub not_pow64 : ℕ → ℕ
not_pow64 k = 2 ^ 64 - 1 - 2 ^ k

-- `value = (value & ~(1ULL << k)) | (x ? (1ULL << k) : 0)`
unfoldable pub set_flag : ℕ → Bool → ℕ → ℕ
set_flag k x value = bit_or (bit_and value (not_pow64 k)) (if x then 2 ^ k else 0)

abbrev pub present : ℕ → Bool
present = has_flag 0

abbrev pub writable : ℕ → Bool
writable = has_flag 1

abbrev pub user : ℕ → Bool
user = has_flag 2

abbrev pub huge_page : ℕ → Bool
huge_page = has_flag 7

abbrev pub small_mask : ℕ
small_mask = 0xFFFFFFFFF000

abbrev pub huge_mask : ℕ
huge_mask = 0xFFFFFFFE00000

unfoldable pub address : ℕ → ℕ
address value = if huge_page value then bit_and value huge_mask else bit_and value small_mask

abbrev pub set_present : Bool → ℕ → ℕ
set_present = set_flag 0

abbrev pub set_writable : Bool → ℕ → ℕ
set_writable = set_flag 1

abbrev pub set_user : Bool → ℕ → ℕ
set_user = set_flag 2

abbrev pub set_pwt : Bool → ℕ → ℕ
set_pwt = set_flag 3

abbrev pub set_pcd : Bool → ℕ → ℕ
set_pcd = set_flag 4

abbrev pub set_accessed : Bool → ℕ → ℕ
set_accessed = set_flag 5

abbrev pub set_huge_page : Bool → ℕ → ℕ
set_huge_page = set_flag 7

-- `~0x1FFFFF` and `~0xFFF`, widened to 64 bits
unfoldable pub set_address : ℕ → ℕ → ℕ
set_address addr value =
    if huge_page value
    then bit_or (bit_and value 0x1FFFFF) (bit_and addr 0xFFFFFFFFFFE00000)
    else bit_or (bit_and value 0xFFF) (bit_and addr 0xFFFFFFFFFFFFF000)
