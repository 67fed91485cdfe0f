-- ===== src/TcpSocket/Stream/Ends.antt =====
-- What holds of the two ends of a connection at every point of their runs.
use mathlib.Core.List.{flatten}
use reechat_base.Base.{
  ℕ, ◌+◌, ◌≤◌, ◌≡◌, refl, sym, ap, ap₂, subst, ◌∙◌, List, [], ◌∷◌, ◌++◌, append_assoc, append-nil,
  some, Bool, true, false, length, take, arith, if◌then◌else◌,
}
use reechat_base.Endian.{Host}
use reechat_base.Frames.{IsFrame, Verdict}
use reechat_base.Frames.Laws.{AllFrames, Parses-flatten}
use reechat_base.RingBuffer.{RingBuffer}
use reechat_base.RingBuffer.Geometry.{IsValid}
use reechat_base.RingBuffer.Contents.{contents}
use reechat_base.TcpSocket.{TcpSocket, Event, event_add, event_del}
use reechat_base.TcpSocket.Send.{framed, accepted, send_data_lem, sent_IsFrame}
use reechat_base.TcpSocket.Write.{Ended, paused, waits, given_up, try_write_buffer_lem}
use reechat_base.TcpSocket.Read.{free_of, filled, try_read_data-arrived}
use reechat_base.TcpSocket.Rounds.{delivered, closing, Processed}
use reechat_base.TcpSocket.Process.{process_buffered_refines}
use reechat_base.TcpSocket.Stream.{packets_of, Sends, Receives}
use reechat_base.TcpSocket.Stream.Called.{
  packets_of-append, packets_of-delivered, flatten-append, packets_of-queued, AllFrames-append,
  AllFrames-Parses,
}

module _ (host : Host) where
  -- The sending end: what `send` took and what waits in the buffer are the packets, one after the other.
  pub record Sender (s : TcpSocket) (frames : List (List ℕ)) (wire : List ℕ) : Type 0 where
    pub framed_all : AllFrames host frames
    pub whole : wire ++ contents s.sender_buffer ≡ flatten frames
    pub valid : IsValid s.sender_buffer
    pub write : Event
    pub has_write : s.write_event ≡ some write

  -- The receiving end: the bytes it has read are the packets it has delivered and what waits in the buffer.
  pub record Receiver (s : TcpSocket) (bytes : List ℕ) : Type 0 where
    pub framed_all : AllFrames host (packets_of s.out)
    pub whole : bytes ≡ flatten (packets_of s.out) ++ contents s.receiver_buffer
    pub valid : IsValid s.receiver_buffer
    pub write : Event
    pub has_write : s.write_event ≡ some write
    pub callback : s.has_read_packet ≡ true

  -- What the end of a write leaves.
  Ended-Sender :
      {s t : TcpSocket} {e : Event} {sender : RingBuffer} {frames : List (List ℕ)} {wire : List ℕ}
      → AllFrames host frames
      → wire ++ contents sender ≡ flatten frames
      → IsValid sender
      → s.write_event ≡ some e
      → Ended s e sender t
      → Sender t frames wire
  Ended-Sender {e = e} all whole v h paused = record {
    framed_all = all;
    whole = whole;
    valid = v;
    write = e;
    has_write = h;
  }
  Ended-Sender {e = e} all whole v h waits = record {
    framed_all = all;
    whole = whole;
    valid = v;
    write = event_add e;
    has_write = refl;
  }
  Ended-Sender {e = e} all whole v h given_up = record {
    framed_all = all;
    whole = whole;
    valid = v;
    write = event_del e;
    has_write = refl;
  }

  accepted-Sender :
      (s u : TcpSocket) (sender : RingBuffer) (done : Bool) {frames : List (List ℕ)} {wire : List ℕ}
      (data_ : List ℕ) (len : ℕ)
      → Sender s frames wire
      → IsFrame host (framed host data_ len)
      → IsValid sender
      → contents sender ≡ (
          if done
          then contents s.sender_buffer ++ framed host data_ len
          else contents s.sender_buffer)
      → (if done then accepted s sender else s) ≡ u
      → Sender u (if done then frames ++ framed host data_ len ∷ [] else frames) wire
  unfolding flatten
  accepted-Sender s u sender true {frames} {wire} data_ len i frame v held e =
      subst (λ x. Sender x (frames ++ framed host data_ len ∷ []) wire) e
        (record {
          framed_all =
              AllFrames-append host frames (framed host data_ len ∷ []) i.framed_all (frame, tt);
          whole =
              ap (λ l. wire ++ l) held
              ∙ sym (append_assoc wire (contents s.sender_buffer) (framed host data_ len))
              ∙ ap₂ (λ a b. a ++ b) i.whole (sym (append-nil (framed host data_ len)))
              ∙ sym (flatten-append frames (framed host data_ len ∷ []));
          valid = v;
          write = i.write;
          has_write = i.has_write;
        })
  accepted-Sender s u sender false {frames} {wire} data_ len i frame v held e =
      subst (λ x. Sender x frames wire) e i

  -- The packets that a run of the loop adds.
  pub packets_of-Processed :
      {t x : TcpSocket} {packets : List (List ℕ)} {verdict : Verdict}
      → t.has_read_packet ≡ true
      → Processed host t x packets verdict
      → packets_of x.out ≡ packets_of t.out ++ packets
  packets_of-Processed {t} {x} {packets} {verdict} set did =
      ap packets_of did.called
      ∙ packets_of-append t.out
          (delivered t.has_read_packet packets ++ closing t.has_on_close verdict)
      ∙ ap
          (λ b.
            packets_of t.out ++ packets_of (delivered b packets ++ closing t.has_on_close verdict))
          set
      ∙ ap (λ l. packets_of t.out ++ l) (packets_of-delivered packets t.has_on_close verdict)

  cut-Receiver :
      {t x : TcpSocket} {bytes : List ℕ} {packets : List (List ℕ)} {verdict : Verdict}
      → Receiver t bytes
      → Processed host t x packets verdict
      → Receiver x bytes
  cut-Receiver {t} {x} {bytes} {packets} {verdict} j did =
      let all = packets_of-Processed j.callback did in
      let (f, has) = did.has_write j.write j.has_write in
      record {
        framed_all = subst (AllFrames host) (sym all) (
            AllFrames-append host (packets_of t.out) packets j.framed_all
              (AllFrames-Parses host did.parses));
        whole =
            j.whole
            ∙ ap (λ l. flatten (packets_of t.out) ++ l) (Parses-flatten did.parses)
            ∙ sym (
                append_assoc (flatten (packets_of t.out)) (flatten packets)
                  (contents x.receiver_buffer))
            ∙ ap (λ l. l ++ contents x.receiver_buffer)
                (sym (flatten-append (packets_of t.out) packets) ∙ ap flatten (sym all));
        valid = did.valid;
        write = f;
        has_write = has;
        callback = did.same_callback ∙ j.callback;
      }

  pub Sends-Sender :
      {s u : TcpSocket} {frames : List (List ℕ)} {wire : List ℕ}
      → Sender s [] []
      → Sends host s u frames wire
      → Sender u frames wire
  Sends-Sender i Sends.begin = i
  Sends-Sender i
        (Sends.taken {t = t} {u = u} {frames = frames} {wire = wire} data_ len r three enough e m) =
      let j = Sends-Sender i r in
      let (sender, done, ran, fits, held, valid, _) =
        send_data_lem host t data_ len j.valid (omega arith) enough in
      let same = sym ran ∙ e in
      let yes_ : done ≡ true = cc in
      let small : len ≤ 65537 = ground arith in
      let frame = sent_IsFrame host data_ len three small enough in
      let after : (if done then accepted t sender else t) ≡ u = cc in
      subst (λ l. Sender u l wire) (sym m)
        (rw yes_ at (accepted-Sender t u sender done data_ len j frame valid held after))
  Sends-Sender i
        (Sends.refused {t = t} {u = u} {frames = frames} {wire = wire} data_ len r three enough e) =
      let j = Sends-Sender i r in
      let (sender, done, ran, fits, held, valid, _) =
        send_data_lem host t data_ len j.valid (omega arith) enough in
      let same = sym ran ∙ e in
      let no_ : done ≡ false = cc in
      let after : t ≡ u = ground arith in subst (λ x. Sender x frames wire) after j
  Sends-Sender i
        (Sends.written {t = t} {u = u} {frames = frames} {wire = wire} {wire' = wire'} calls r e) =
      let j = Sends-Sender i r in
      let (x, w, sender, ran, kept, ended, valid, _, _) =
        try_write_buffer_lem t wire calls j.write j.valid j.has_write in
      let same = sym ran ∙ e in
      let first : x ≡ u = cc in
      let second : w ≡ wire' = cc in
      subst (λ y. Sender y frames wire') first
        (subst (λ l. Sender x frames l) second
          (Ended-Sender j.framed_all (kept ∙ j.whole) valid j.has_write ended))

  pub Receives-Receiver :
      {r u : TcpSocket} {bytes : List ℕ}
      → Receiver r []
      → Receives host r u bytes
      → Receiver u bytes
  Receives-Receiver i Receives.begin = i
  Receives-Receiver i (Receives.reads {t = t} {u = u} {bytes = bytes} there r some_ e m) =
      let j = Receives-Receiver i r in
      let (receiver, ran, held, valid, _) =
        try_read_data-arrived t j.write j.valid j.has_write there some_ in
      let same = sym ran ∙ e in
      let after : filled t receiver ≡ u = cc in
      let chunk : List ℕ = take (free_of t.receiver_buffer) there in
      let kept : packets_of (filled t receiver).out ≡ packets_of t.out = packets_of-queued t.out in
      subst (λ l. Receiver u l) (sym m)
        (subst (λ x. Receiver x (bytes ++ chunk)) after
          (record {
            framed_all = subst (AllFrames host) (sym kept) j.framed_all;
            whole =
                ap (λ l. l ++ chunk) j.whole
                ∙ append_assoc (flatten (packets_of t.out)) (contents t.receiver_buffer) chunk
                ∙ ap₂ (λ a b. flatten a ++ b) (sym kept) (sym held);
            valid = valid;
            write = j.write;
            has_write = j.has_write;
            callback = j.callback;
          }))
  Receives-Receiver i (Receives.cuts {t = t} {u = u} {bytes = bytes} r room e) =
      let j = Receives-Receiver i r in
      let (x, packets, verdict, ran, did) =
        process_buffered_refines (length (contents t.receiver_buffer) + 1) host t j.write j.valid
          room j.has_write (omega arith) in
      let same = sym ran ∙ e in
      let after : x ≡ u = cc in subst (λ y. Receiver y bytes) after (cut-Receiver j did)
