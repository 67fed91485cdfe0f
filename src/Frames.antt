-- ===== src/Frames.antt =====
-- The packet format of the TCP connections, apart from any buffer: two bytes of length in the
-- host's order, from 1 to 65535, and as many bytes of payload. `Parses bytes packets rest verdict`
-- says how a stream is cut; its constructors are the cases of the format.
pub mod Laws
use reechat_base.Base.{ℕ, ◌+◌, ◌≤◌, ◌<◌, ◌≡◌, ◌⊎◌, List, [], ◌∷◌, ◌++◌, length, take}
use reechat_base.Endian.{Host, of_memory}

-- What stands in the first two bytes.
abbrev pub payload_length : Host → List ℕ → ℕ
payload_length host bytes = of_memory host (take 2 bytes)

-- One whole packet, its two length bytes included.
pub record IsFrame (host : Host) (bytes : List ℕ) : Type 0 where
  pub headed : 2 ≤ length bytes
  pub filled : 0 < payload_length host bytes
  pub small : payload_length host bytes ≤ 65535
  pub exact : length bytes ≡ payload_length host bytes + 2

-- `waiting`: the rest is the beginning of a packet; `illegal`: it begins with another length.
pub data Verdict : Type 0 where
  waiting illegal : Verdict

pub data Parses (host : Host) : List ℕ → List (List ℕ) → List ℕ → Verdict → Type 0 where
  short : (bytes : List ℕ) → length bytes < 2 → Parses host bytes [] bytes waiting
  unfinished :
      (bytes : List ℕ)
      → 2 ≤ length bytes
      → 0 < payload_length host bytes
      → payload_length host bytes ≤ 65535
      → length bytes < payload_length host bytes + 2
      → Parses host bytes [] bytes waiting
  unlawful :
      (bytes : List ℕ)
      → 2 ≤ length bytes
      → (payload_length host bytes ≡ 0) ⊎ (65535 < payload_length host bytes)
      → Parses host bytes [] bytes illegal
  packet :
      {bytes rest left : List ℕ} {packets : List (List ℕ)} {verdict : Verdict} (frame : List ℕ)
      → IsFrame host frame
      → bytes ≡ frame ++ rest
      → Parses host rest packets left verdict
      → Parses host bytes (frame ∷ packets) left verdict
