-- ===== src/TcpSocket/Untouched.antt =====
-- What `TryProcessBufferedDataInWorkLoop` (tcp_socket_wrapper.cpp) leaves alone, whatever it finds.
use reechat_base.Base.{
  ℕ, zero, suc, ◌+◌, ◌≡◌, ◌⊎◌, inl, inr, refl, sym, ap, subst, ◌∙◌, List, some, Bool, true, false,
  arith, Option-cases, Bool-cases, ltb, ◌||◌, ◌==◌, if◌then◌else◌,
}
use reechat_base.Endian.{Host}
use reechat_base.RingBuffer.{RingBuffer, available_read, available_series_read}
use reechat_base.TcpSocket.{TcpSocket, Event, event_del, emit, read_packet}
use reechat_base.TcpSocket.Receiving.{
  Round, stop, again_with, deliver, refuse_packet, read_head, take_packet, process_round,
  process_buffered,
}

-- The buffer to send from, the state and the helper stay; an event stays or is taken out.
pub record Untouched (s t : TcpSocket) : Type 0 where
  pub same_sender : t.sender_buffer ≡ s.sender_buffer
  pub same_state : t.state ≡ s.state
  pub same_helper : t.share_this_helper ≡ s.share_this_helper
  pub reads : (t.read_event ≡ s.read_event) ⊎ (t.read_event ≡ event_del s.read_event)
  pub writes :
      (t.write_event ≡ s.write_event)
      ⊎ ((e : Event) × (s.write_event ≡ some e) × (t.write_event ≡ some (event_del e)))

all_same :
    {s t : TcpSocket}
    → t.sender_buffer ≡ s.sender_buffer
    → t.state ≡ s.state
    → t.share_this_helper ≡ s.share_this_helper
    → t.read_event ≡ s.read_event
    → t.write_event ≡ s.write_event
    → Untouched s t
all_same a b c d e = record {
  same_sender = a;
  same_state = b;
  same_helper = c;
  reads = inl d;
  writes = inl e;
}

after_same :
    {s t u : TcpSocket}
    → Untouched s t
    → t.read_event ≡ s.read_event
    → t.write_event ≡ s.write_event
    → Untouched t u
    → Untouched s u
after_same k r w l = record {
  same_sender = l.same_sender ∙ k.same_sender;
  same_state = l.same_state ∙ k.same_state;
  same_helper = l.same_helper ∙ k.same_helper;
  reads = elim l.reads [ inl h ↦ inl (h ∙ r) | inr h ↦ inr (h ∙ ap event_del r) ];
  writes = elim l.writes [ inl h ↦ inl (h ∙ w) | inr (e, h, i) ↦ inr (e, sym w ∙ h, i) ];
}

Untouched-refuse : {s t : TcpSocket} → refuse_packet s ≡ some t → Untouched s t
unfolding refuse_packet
Untouched-refuse {s} {t} e = elim (Option-cases s.write_event) [
  | inl n ↦ absurd (ground (arith, n, e))
  | inr (w, h) ↦ record {
    same_sender = ground (arith, h, e);
    same_state = ground (arith, h, e);
    same_helper = ground (arith, h, e);
    reads = inr (ground (arith, h, e));
    writes = inr (w, h, ground (arith, h, e));
  }
]

-- A packet handed over leaves them alone.
delivered :
    {s t : TcpSocket} (b : Bool) (bytes : List ℕ) (receiver : RingBuffer)
    → Untouched
        (if b
          then emit (record s { receiver_buffer = receiver }) (read_packet bytes)
          else record s { receiver_buffer = receiver })
        t
    → Untouched s t
delivered true bytes receiver k = after_same (all_same refl refl refl refl refl) refl refl k
delivered false bytes receiver k = after_same (all_same refl refl refl refl refl) refl refl k

-- How a round of the loop goes.
process_round-cases :
    (host : Host) (s : TcpSocket) (r : Round)
    → process_round host s ≡ some r
    → (r ≡ stop s)
      ⊎ (((t : TcpSocket) × (refuse_packet s ≡ some t) × (r ≡ stop t))
          ⊎ ((bytes : List ℕ) × (receiver : RingBuffer) × (r
                ≡ again_with (deliver (record s { receiver_buffer = receiver }) bytes))))
unfolding process_round
process_round-cases host s r e = elim (Option-cases (available_read s.receiver_buffer)) [
  | inl n ↦ absurd (ground (arith, n, e))
  | inr (available, a) ↦ elim (Option-cases (available_series_read s.receiver_buffer)) [
    | inl n ↦ absurd (ground (arith, a, n, e))
    | inr (series, b) ↦ elim (Bool-cases (ltb available 2)) [
      | inl few ↦ inl (ground (arith, a, b, few, e))
      | inr more ↦ elim (Option-cases (read_head host s.receiver_buffer series)) [
        | inl n ↦ absurd (ground (arith, a, b, more, n, e))
        | inr (len, c) ↦ elim (Bool-cases (ltb 65535 len || len == 0)) [
          | inl out ↦ elim (Option-cases (refuse_packet s)) [
            | inl n ↦ absurd (ground (arith, a, b, more, c, out, n, e))
            | inr (t, d) ↦ inr (inl (t, d, ground (arith, a, b, more, c, out, d, e)))
          ]
          | inr within ↦ elim (Bool-cases (ltb available (len + 2))) [
            | inl part ↦ inl (ground (arith, a, b, more, c, within, part, e))
            | inr whole ↦ elim (Option-cases (take_packet s.receiver_buffer series (len + 2))) [
              | inl n ↦ absurd (ground (arith, a, b, more, c, within, whole, n, e))
              | inr ((bytes, receiver), d) ↦
                  inr (inr (bytes, receiver, ground (arith, a, b, more, c, within, whole, d, e)))
            ]
          ]
        ]
      ]
    ]
  ]
]

pub Untouched-process :
    (fuel : ℕ) (host : Host) {s t : TcpSocket}
    → process_buffered fuel host s ≡ some t
    → Untouched s t
unfolding process_buffered
Untouched-process zero host e = absurd (cc)
Untouched-process (suc fuel) host {s} {t} e = elim (Option-cases (process_round host s)) [
  | inl n ↦ absurd (ground (arith, n, e))
  | inr (r, h) ↦ elim (process_round-cases host s r h) [
    | inl stays ↦
        let same : s ≡ t = ground (arith, h, stays, e) in
        subst (Untouched s) same (all_same refl refl refl refl refl)
    | inr more ↦ elim more [
      | inl (u, refused, stays) ↦
          let same : u ≡ t = ground (arith, h, stays, e) in
          subst (Untouched s) same (Untouched-refuse refused)
      | inr (bytes, receiver, goes_on) ↦
          let u : TcpSocket = deliver (record s { receiver_buffer = receiver }) bytes in
          let rest : process_buffered fuel host u ≡ some t = ground (arith, h, goes_on, e) in
          delivered s.has_read_packet bytes receiver (Untouched-process fuel host rest)
    ]
  ]
]
