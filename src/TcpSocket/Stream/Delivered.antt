-- ===== src/TcpSocket/Stream/Delivered.antt =====
-- What arrives at one end of a connection of what was sent at the other (tcp_socket_wrapper.cpp).
use mathlib.Core.List.{flatten}
use reechat_base.Base.{
  ℕ, ◌+◌, ◌<◌, ◌≡◌, refl, sym, ap, subst, ◌∙◌, List, [], ◌∷◌, ◌++◌, append_assoc, append-nil, some,
  length, arith, length-append,
}
use reechat_base.Endian.{Host}
use reechat_base.Frames.{waiting, Parses}
use reechat_base.Frames.Laws.{AllFrames, frame_unique, Parses-frames, Parses-unique}
use reechat_base.RingBuffer.Contents.{contents}
use reechat_base.TcpSocket.{TcpSocket}
use reechat_base.TcpSocket.Receiving.{process_buffered}
use reechat_base.TcpSocket.Process.{process_buffered_refines}
use reechat_base.TcpSocket.Stream.{packets_of, Sends, Receives}
use reechat_base.TcpSocket.Stream.Ends.{
  Sender, Receiver, Sends-Sender, Receives-Receiver, packets_of-Processed,
}

-- Packets that begin a stream of packets are its first ones.
module _ (host : Host) where
  frames_first :
      (first all : List (List ℕ)) (rest : List ℕ)
      → AllFrames host first
      → AllFrames host all
      → flatten first ++ rest ≡ flatten all
      → (more : List (List ℕ)) × (all ≡ first ++ more) × (rest ≡ flatten more) × AllFrames host more
  unfolding flatten
  frames_first [] all rest h k e = (all, refl, e, k)
  frames_first (f ∷ fs) [] rest (h, hs) k e =
      let size = ap length e ∙ refl in
      let long = length-append (f ++ flatten fs) rest in
      let part = length-append f (flatten fs) in let headed = h.headed in absurd (omega arith)
  frames_first (f ∷ fs) (g ∷ gs) rest (h, hs) (k, ks) e =
      let (same, next) =
        frame_unique host f g (flatten fs ++ rest) (flatten gs) h k
          (sym (append_assoc f (flatten fs) rest) ∙ e) in
      let (more, split, left, good) = frames_first fs gs rest hs ks next in
      (more, ap (λ x. x ∷ gs) (sym same) ∙ ap (◌∷◌ f) split, left, good)

  -- A connection between two valid wrappers that start with empty buffers and no packet delivered. Whatever
  -- calls of `SendData`, with 3 to 65537 bytes, and of `TryWriteBufferToSocket` the one end makes, and however the reads and the
  -- cutting of packets at the other are spread over the bytes, which the network brings in order: the
  -- packets that `SignalReadPacket` gets are the first of those that `SendData` took, whole, in order and once each.
  pub Receives-delivered :
      {s u r w : TcpSocket} {frames : List (List ℕ)} {wire bytes : List ℕ} (transit : List ℕ)
      → Sender host s [] []
      → Receiver host r []
      → Sends host s u frames wire
      → Receives host r w bytes
      → wire ≡ bytes ++ transit
      → (more : List (List ℕ)) × (frames ≡ packets_of w.out ++ more)
  Receives-delivered {s} {u} {r} {w} {frames} {wire} {bytes} transit i j sends receives e =
      let a = Sends-Sender host i sends in
      let b = Receives-Receiver host j receives in
      let c : List ℕ = contents u.sender_buffer in
      let d : List ℕ = contents w.receiver_buffer in
      let p : List ℕ = flatten (packets_of w.out) in
      let together : p ++ ((d ++ transit) ++ c) ≡ flatten frames =
        sym (append_assoc p (d ++ transit) c)
        ∙ ap (λ l. l ++ c)
            (sym (append_assoc p d transit) ∙ ap (λ l. l ++ transit) (sym b.whole) ∙ sym e)
        ∙ a.whole in
      let (more, split, _, _) =
        frames_first (packets_of w.out) frames ((d ++ transit) ++ c) b.framed_all a.framed_all
          together in
      (more, split)

  -- If the sending end has nothing left to write and the other has read every byte of it, and its buffer is not
  -- full, then one more run of the loop returns, and the packets that `SignalReadPacket` has got by then
  -- are exactly those that `SendData` took; the buffer is empty.
  pub Receives-all :
      {s u r w : TcpSocket} {frames : List (List ℕ)} {wire : List ℕ}
      → Sender host s [] []
      → Receiver host r []
      → Sends host s u frames wire
      → contents u.sender_buffer ≡ []
      → Receives host r w wire
      → length (contents w.receiver_buffer) < w.receiver_buffer.capacity
      → (x : TcpSocket) × (process_buffered (length (contents w.receiver_buffer) + 1) host w
          ≡ some x)
        × (packets_of x.out ≡ frames)
        × (contents x.receiver_buffer ≡ [])
  Receives-all {s} {u} {r} {w} {frames} {wire} i j sends empty receives room =
      let a = Sends-Sender host i sends in
      let b = Receives-Receiver host j receives in
      let d : List ℕ = contents w.receiver_buffer in
      let together : flatten (packets_of w.out) ++ d ≡ flatten frames =
        sym b.whole ∙ sym (append-nil wire) ∙ ap (λ l. wire ++ l) (sym empty) ∙ a.whole in
      let (more, split, left, good) =
        frames_first (packets_of w.out) frames d b.framed_all a.framed_all together in
      let (x, packets, verdict, ran, did) =
        process_buffered_refines (length d + 1) host w b.write b.valid room b.has_write
          (omega arith) in
      let (same, none_left, _) =
        Parses-unique did.parses
          (subst (λ l. Parses host l more [] waiting) (sym left) (Parses-frames more good)) in
      (
        x,
        ran,
        packets_of-Processed host b.callback did ∙ ap (λ l. packets_of w.out ++ l) same ∙ sym split,
        none_left,
      )
