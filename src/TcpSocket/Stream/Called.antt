-- ===== src/TcpSocket/Stream/Called.antt =====
-- The packets among the calls that one end of a connection has made, and packets put one after the other.
use mathlib.Core.List.{flatten}
use reechat_base.Base.{
  ℕ, ◌≡◌, refl, sym, ap, ◌∙◌, List, [], ◌∷◌, ◌++◌, append_assoc, append-nil, Bool, true, false,
}
use reechat_base.Endian.{Host}
use reechat_base.Frames.{Verdict, waiting, illegal, Parses}
use reechat_base.Frames.Laws.{AllFrames}
use reechat_base.TcpSocket.{
  Effect, read_packet, run_in_network, run_in_worker, queue_in_worker, new_connection, close_event,
  try_process,
}
use reechat_base.TcpSocket.Rounds.{delivered, closing}
use reechat_base.TcpSocket.Stream.{packets_of}

pub packets_of-append :
    (es fs : List Effect) → packets_of (es ++ fs) ≡ packets_of es ++ packets_of fs
unfolding packets_of
packets_of-append [] fs = refl
packets_of-append (run_in_network t ∷ es) fs = packets_of-append es fs
packets_of-append (run_in_worker t ∷ es) fs = packets_of-append es fs
packets_of-append (queue_in_worker t ∷ es) fs = packets_of-append es fs
packets_of-append (read_packet p ∷ es) fs = ap (◌∷◌ p) (packets_of-append es fs)
packets_of-append (new_connection ∷ es) fs = packets_of-append es fs
packets_of-append (close_event ∷ es) fs = packets_of-append es fs

pub packets_of-delivered :
    (packets : List (List ℕ)) (b : Bool) (v : Verdict)
    → packets_of (delivered true packets ++ closing b v) ≡ packets
unfolding packets_of
packets_of-delivered [] b waiting = refl
packets_of-delivered [] true illegal = refl
packets_of-delivered [] false illegal = refl
packets_of-delivered (p ∷ ps) b v = ap (◌∷◌ p) (packets_of-delivered ps b v)

pub flatten-append : (fs gs : List (List ℕ)) → flatten (fs ++ gs) ≡ flatten fs ++ flatten gs
unfolding flatten
flatten-append [] gs = refl
flatten-append (f ∷ fs) gs =
    ap (◌++◌ f) (flatten-append fs gs) ∙ sym (append_assoc f (flatten fs) (flatten gs))

pub packets_of-queued :
    (es : List Effect) → packets_of (es ++ queue_in_worker try_process ∷ []) ≡ packets_of es
unfolding packets_of
packets_of-queued es =
    packets_of-append es (queue_in_worker try_process ∷ []) ∙ append-nil (packets_of es)

module _ (host : Host) where
  pub AllFrames-append :
      (fs gs : List (List ℕ)) → AllFrames host fs → AllFrames host gs → AllFrames host (fs ++ gs)
  AllFrames-append [] gs h k = k
  AllFrames-append (f ∷ fs) gs (h, hs) k = (h, AllFrames-append fs gs hs k)

  pub AllFrames-Parses :
      {bytes left : List ℕ} {packets : List (List ℕ)} {v : Verdict}
      → Parses host bytes packets left v
      → AllFrames host packets
  AllFrames-Parses (Parses.short _ _) = tt
  AllFrames-Parses (Parses.unfinished _ _ _ _ _) = tt
  AllFrames-Parses (Parses.unlawful _ _ _) = tt
  AllFrames-Parses (Parses.packet frame f e r) = (f, AllFrames-Parses r)
