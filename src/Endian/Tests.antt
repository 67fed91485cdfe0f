-- ===== src/Endian/Tests.antt =====
-- The bytes 1 to 8.
use reechat_base.Base.{ℕ, ◌≡◌}
use reechat_base.Endian.{evppbswap_64, le_bytes, of_be}
use reechat_base.Endian.Swap.{evppbswap_64-of_be}

abbrev bytes_1_to_8 : ℕ
bytes_1_to_8 = 72623859790382856

-- The theorems at these examples.
evppbswap_64-of_be_example : evppbswap_64 bytes_1_to_8 ≡ of_be (le_bytes 8 bytes_1_to_8)
evppbswap_64-of_be_example = evppbswap_64-of_be bytes_1_to_8
