-- ===== src/PoolBuffer/Tests.antt =====
-- Runs of the pool buffers of socket_buffer.hpp.
use reechat_base.Base.{ℕ, ◌≡◌, List, [], ◌∷◌, some, min, length-replicate, replicate, arith}
use reechat_base.PoolBuffer.{PoolBuffer, max_data_size, set_data, init}
use reechat_base.PoolBuffer.Copies.{IsValid, filled, set_data_lem}

ones : ℕ → List ℕ
ones n = replicate n 1

abbrev fresh : PoolBuffer
fresh = init ones 77

fresh-IsValid : IsValid fresh
unfolding init ones
fresh-IsValid = record { storage = length-replicate {A = ℕ} max_data_size 1 }

abbrev three : List ℕ
three = 1 ∷ 2 ∷ 3 ∷ []

-- The theorems at these examples.
set_data_lem_example :
    (q : PoolBuffer) × (set_data fresh three 3 ≡ some q)
    × IsValid q
    × (q.data_len ≡ min 3 max_data_size)
    × (q.data_ptr ≡ filled three (min 3 max_data_size))
set_data_lem_example = set_data_lem fresh-IsValid three 3 (omega arith)
