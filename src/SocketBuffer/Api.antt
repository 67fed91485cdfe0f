-- ===== src/SocketBuffer/Api.antt =====
-- What prepending, skipping and taking back do, each in one statement.
use reechat_base.Base.{
  ℕ, ◌-◌, ◌≤◌, ◌≡◌, List, ◌++◌, some, length, take, drop, leb, if◌then◌else◌, arith, dec_le, refl,
}
use reechat_base.SocketBuffer.{SocketBuffer, prepend, next, unwrite_bytes}
use reechat_base.SocketBuffer.Grow.{IsValid, unread}
use reechat_base.SocketBuffer.Editing.{Holds, prepend_lem}
use reechat_base.SocketBuffer.Taking.{next_lem, unwrite_bytes_lem}

-- `Prepend` puts the bytes in front of the unread ones of a valid buffer if the gap has room for them.
pub prepend-Holds :
    {b : SocketBuffer} (d : List ℕ) (len : ℕ)
    → IsValid b
    → len ≤ length d
    → len ≤ b.read_index
    → (c : SocketBuffer) × (prepend b d len ≡ some c) × Holds c (take len d ++ unread b)
prepend-Holds d len v enough room =
    let (ok, _) = prepend_lem d len v enough in
    let (c, e, valid, holds, _) = ok room in (c, e, record { valid = valid; holds = holds })

-- `Next` drops `len` unread bytes of a valid buffer if it has as many, and otherwise changes nothing.
pub next-Holds :
    {b : SocketBuffer} (len : ℕ)
    → IsValid b
    → Holds (next b len) (if leb len (length (unread b)) then drop len (unread b) else unread b)
next-Holds {b} len v =
    let (some_, none_) = next_lem v len in
    elim (dec_le len (length (unread b))) [
      | yes h ↦
          let e : (if leb len (length (unread b)) then drop len (unread b) else unread b)
              ≡ drop len (unread b) =
            ground arith in
          rw e (some_ h)
      | no h ↦
          let e : (if leb len (length (unread b)) then drop len (unread b) else unread b)
              ≡ unread b =
            ground arith in
          rw (e, none_ (omega arith)) (record { valid = v; holds = refl })
    ]

-- `UnwriteBytes` takes the last `n` unread bytes of a valid buffer back, if it has as many.
pub unwrite_bytes-Holds :
    {b : SocketBuffer} (n : ℕ)
    → IsValid b
    → n ≤ length (unread b)
    → (c : SocketBuffer) × (unwrite_bytes b n ≡ some c)
      × Holds c (take (length (unread b) - n) (unread b))
unwrite_bytes-Holds n v h = let (ok, _) = unwrite_bytes_lem v n in ok h
