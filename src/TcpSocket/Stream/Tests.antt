-- ===== src/TcpSocket/Stream/Tests.antt =====
-- One packet from end to end.
use mathlib.Core.List.{flatten}
use reechat_base.Base.{ℕ, ◌+◌, ◌≡◌, refl, List, [], ◌∷◌, ◌++◌, some, arith, length, memcpy}
use reechat_base.Endian.{little}
use reechat_base.RingBuffer.{
  RingBuffer, available_write, write_content, available_series_read, load, current_series_read_head,
  consume_series_read_len, current_series_write_head, available_series_write, store,
  consume_series_write_len,
}
use reechat_base.RingBuffer.Geometry.{IsValid}
use reechat_base.RingBuffer.Contents.{contents}
use reechat_base.TcpSocket.{
  TcpSocket, cleared, try_write, try_process, run_in_network, queue_in_worker,
}
use reechat_base.TcpSocket.Sending.{send_data, try_write_buffer, accepts}
use reechat_base.TcpSocket.Receiving.{try_read_data, process_buffered}
use reechat_base.TcpSocket.Samples.{sock, ring, caller_buffer}
use reechat_base.TcpSocket.Stream.{packets_of, Sends, Receives}
use reechat_base.TcpSocket.Stream.Ends.{Sender, Receiver}
use reechat_base.TcpSocket.Stream.Delivered.{Receives-delivered, Receives-all}

abbrev quiet_ring : RingBuffer
quiet_ring = record ring { write_count = ring.read_count }

abbrev quiet : TcpSocket
quiet = record sock { sender_buffer = quiet_ring; receiver_buffer = quiet_ring }

-- The packet of `caller_buffer`, which runs round the end of the array.
abbrev one_packet : List (List ℕ)
one_packet = (3 ∷ 0 ∷ 31 ∷ 32 ∷ 33 ∷ []) ∷ []

abbrev wire : List ℕ
wire = 3 ∷ 0 ∷ 31 ∷ 32 ∷ 33 ∷ []

abbrev wrapped : RingBuffer
wrapped = record quiet_ring {
  data_arr = 31 ∷ 32 ∷ 33 ∷ 0 ∷ 21 ∷ 0 ∷ 0 ∷ 0 ∷ 0 ∷ 0 ∷ 0 ∷ 0 ∷ 0 ∷ 0 ∷ 3 ∷ 0 ∷ [];
  write_count = 19;
}

abbrev sent : TcpSocket
sent = record quiet { sender_buffer = wrapped; out = run_in_network try_write ∷ [] }

abbrev written_out : TcpSocket
written_out = record sent { sender_buffer = record wrapped { read_count = 19 } }

abbrev head_read : TcpSocket
head_read = record quiet {
  receiver_buffer = record quiet_ring {
    data_arr = 11 ∷ 12 ∷ 1 ∷ 0 ∷ 21 ∷ 0 ∷ 0 ∷ 0 ∷ 0 ∷ 0 ∷ 0 ∷ 0 ∷ 0 ∷ 0 ∷ 3 ∷ 0 ∷ [];
    write_count = 16;
  };
  out = queue_in_worker try_process ∷ [];
}

abbrev all_read : TcpSocket
all_read = record quiet {
  receiver_buffer = wrapped;
  out = queue_in_worker try_process ∷ queue_in_worker try_process ∷ [];
}

quiet_ring-IsValid : IsValid quiet_ring
quiet_ring-IsValid = record {
  bits = 4;
  bits_small = omega arith;
  power = refl;
  mask = refl;
  storage = refl;
  read_word = omega arith;
  write_word = omega arith;
  fits = omega arith;
}

quiet-Sender : Sender little quiet [] []
unfolding flatten
quiet-Sender = record {
  framed_all = tt;
  whole = refl;
  valid = quiet_ring-IsValid;
  write = cleared;
  has_write = refl;
}

quiet-Receiver : Receiver little quiet []
unfolding flatten packets_of
quiet-Receiver = record {
  framed_all = tt;
  whole = refl;
  valid = quiet_ring-IsValid;
  write = cleared;
  has_write = refl;
  callback = refl;
}

sends_run : Sends little quiet written_out one_packet wire
unfolding send_data try_write_buffer available_write memcpy write_content available_series_read load
    current_series_read_head consume_series_read_len
sends_run =
    Sends.written {wire = []} (accepts 9 ∷ accepts 9 ∷ [])
      (Sends.taken {t = quiet} {u = sent} caller_buffer 5 Sends.begin (omega arith) (omega arith)
        refl refl)
      refl

Receives-run : Receives little quiet all_read wire
unfolding try_read_data current_series_write_head available_series_write store
    consume_series_write_len memcpy
Receives-run =
    Receives.reads {t = head_read} (31 ∷ 32 ∷ 33 ∷ [])
      (Receives.reads {t = quiet} wire Receives.begin (λ e. cc) refl refl) (λ e. cc) refl refl

head_run : Receives little quiet head_read (3 ∷ 0 ∷ [])
unfolding try_read_data current_series_write_head available_series_write store
    consume_series_write_len memcpy
head_run = Receives.reads {t = quiet} wire Receives.begin (λ e. cc) refl refl

-- The theorems at these examples.
Receives-all_example :
    (x : TcpSocket) × (process_buffered
        (length (contents all_read.receiver_buffer) + 1)
        little
        all_read
      ≡ some x)
    × (packets_of x.out ≡ one_packet)
    × (contents x.receiver_buffer ≡ [])
Receives-all_example =
    Receives-all little quiet-Sender quiet-Receiver sends_run refl Receives-run (omega arith)

Receives-delivered_example :
    (more : List (List ℕ)) × (one_packet ≡ packets_of head_read.out ++ more)
Receives-delivered_example =
    Receives-delivered little (31 ∷ 32 ∷ 33 ∷ []) quiet-Sender quiet-Receiver sends_run head_run
      refl
