-- ===== src/SocketBuffer/Integers/RoundTrip.antt =====
-- Integers written at the back are read back, on either host.
use reechat_base.Base.{
  ℕ, ◌^◌, ◌<◌, ◌≡◌, sym, ◌∙◌, List, [], ◌++◌, Option, some, ◌>>=◌, arith, append-nil, append_assoc,
}
use reechat_base.Endian.{Host, memory}
use reechat_base.Endian.Bytes.{length-memory}
use reechat_base.SocketBuffer.{SocketBuffer, skip}
use reechat_base.SocketBuffer.Grow.{IsValid, unread, Allocates}
use reechat_base.SocketBuffer.Editing.{Holds}
use reechat_base.SocketBuffer.Integers.{
  swapped, networked, append_int64, append_int32, append_int16, append_int8, read_int64, read_int32,
  read_int16, read_int8,
}
use reechat_base.SocketBuffer.Integers.Reading.{
  read_int64_lem, read_int32_lem, read_int16_lem, read_int8_lem,
}
use reechat_base.SocketBuffer.Integers.Order.{write_all}

-- One integer of each width, and the reads that match.
abbrev pub append_record : (ℕ → List ℕ) → Host → SocketBuffer → ℕ → ℕ → ℕ → ℕ → Option SocketBuffer
append_record allocate host b w x y z = append_int64 host allocate b w >>= λ b1.
    append_int32 host allocate b1 x >>= λ b2.
    append_int16 host allocate b2 y >>= λ b3. append_int8 host allocate b3 z

abbrev pub read_record : Host → SocketBuffer → Option ((ℕ × ℕ × ℕ × ℕ) × SocketBuffer)
read_record host b = do
  (w, b1) ← read_int64 host b
  (x, b2) ← read_int32 host b1
  (y, b3) ← read_int16 host b2
  (z, b4) ← read_int8 host b3
  some ((w, x, y, z), b4)

-- Four integers appended to an empty buffer are read back in the same order, on every host, and
-- leave it empty.
pub append_record-read_record :
    (allocate : ℕ → List ℕ) (host : Host) {b : SocketBuffer} (w x y z : ℕ)
    → Allocates allocate
    → IsValid b
    → unread b ≡ []
    → b.capacity < 2 ^ 56
    → w < 2 ^ 64
    → x < 2 ^ 32
    → y < 2 ^ 16
    → z < 2 ^ 8
    → (c d : SocketBuffer) × (append_record allocate host b w x y z ≡ some c)
      × (read_record host c ≡ some ((w, x, y, z), d))
      × Holds d []
unfolding append_int64 append_int32 append_int16 append_int8
append_record-read_record allocate host {b} w x y z allocates v empty small hw hx hy hz =
    let s8 = swapped host w in
    let s4 = networked host 4 x in
    let s2 = networked host 2 y in
    let s1 = memory host 1 z in
    let (b1, e1, h1, k1) =
      write_all allocate host allocates s8 8 v (omega arith) (length-memory host 8 _) in
    let (b2, e2, h2, k2) =
      write_all allocate host allocates s4 4 h1.valid (omega arith) (length-memory host 4 _) in
    let (b3, e3, h3, k3) =
      write_all allocate host allocates s2 2 h2.valid (omega arith) (length-memory host 2 _) in
    let (b4, e4, h4, k4) =
      write_all allocate host allocates s1 1 h3.valid (omega arith) (length-memory host 1 _) in
    let all : unread b4 ≡ s8 ++ (s4 ++ (s2 ++ s1)) =
      simp (h4.holds, h3.holds, h2.holds, h1.holds, empty, append_assoc) in
    let (r1, g1) = read_int64_lem host h4.valid (s4 ++ (s2 ++ s1)) w hw all in
    let (r2, g2) = read_int32_lem host g1.valid (s2 ++ s1) x hx g1.holds in
    let (r3, _, g3) = read_int16_lem host g2.valid s1 y hy g2.holds in
    let (r4, g4) = read_int8_lem host g3.valid [] z hz (g3.holds ∙ sym (append-nil s1)) in
    (b4, skip (skip (skip (skip b4 8) 4) 2) 1, rw (e1, e2, e3, e4), rw (r1, r2, r3, r4), g4)
