-- ===== src/TcpSocket/Samples.antt =====
-- Sockets, buffers and packets for the examples.
use mathlib.Core.List.{flatten}
use reechat_base.Base.{ℕ, ◌≡◌, ◌≢◌, refl, List, [], ◌∷◌, some, true, false, take, arith}
use reechat_base.Endian.{little}
use reechat_base.Frames.{waiting, short, packet}
use reechat_base.Frames.Laws.{AllFrames}
use reechat_base.RingBuffer.{RingBuffer, current_series_write_head}
use reechat_base.RingBuffer.Geometry.{IsValid}
use reechat_base.RingBuffer.Contents.{contents}
use reechat_base.TcpSocket.{
  TcpSocket, live, closed, connected, cleared, on_connection, on_read_event, on_write_event,
  read_packet,
}
use reechat_base.TcpSocket.Sending.{Outgoing, accepts, busy}
use reechat_base.TcpSocket.Rounds.{Processed}
use reechat_base.TcpSocket.Read.{free_of}
use reechat_base.TcpSocket.Connecting.{begin_process_in_network_loop}
use reechat_base.TcpSocket.Lifecycle.{Reach, here, next, process}

abbrev pub ring : RingBuffer
ring = record {
  capacity = 16;
  max_index = 15;
  data_arr = 11 ∷ 12 ∷ 1 ∷ 0 ∷ 21 ∷ 0 ∷ 0 ∷ 0 ∷ 0 ∷ 0 ∷ 0 ∷ 0 ∷ 0 ∷ 0 ∷ 2 ∷ 0 ∷ [];
  read_count = 14;
  write_count = 21;
}

pub ring-IsValid : IsValid ring
ring-IsValid = record {
  bits = 4;
  bits_small = omega arith;
  power = refl;
  mask = refl;
  storage = refl;
  read_word = omega arith;
  write_word = omega arith;
  fits = omega arith;
}

abbrev pub full : RingBuffer
full = record ring { write_count = 30 }

pub full-IsValid : IsValid full
full-IsValid = record {
  bits = 4;
  bits_small = omega arith;
  power = refl;
  mask = refl;
  storage = refl;
  read_word = omega arith;
  write_word = omega arith;
  fits = omega arith;
}

abbrev pub sock : TcpSocket
sock = record {
  socketfd = some 5;
  listening = false;
  state = connected;
  listen_port = 0;
  read_event = record { handler = on_read_event; added = true };
  write_event = some cleared;
  sender_buffer = ring;
  receiver_buffer = ring;
  share_this_helper = live;
  has_on_connected = true;
  has_read_packet = true;
  has_new_connection = false;
  has_on_close = true;
  out = [];
}

abbrev pub two_frames : List (List ℕ)
two_frames = (2 ∷ 0 ∷ 11 ∷ 12 ∷ []) ∷ (1 ∷ 0 ∷ 21 ∷ []) ∷ []

pub two_frames-AllFrames : AllFrames little two_frames
two_frames-AllFrames = (
  record { headed = omega arith; filled = omega arith; small = omega arith; exact = refl },
  (record { headed = omega arith; filled = omega arith; small = omega arith; exact = refl }, tt),
)

-- The receiver while only the first byte is there, with one more packet's end, and when it is read.
abbrev pub first_byte : TcpSocket
first_byte = record sock { receiver_buffer = record ring { write_count = 15 } }

abbrev pub first_packet : TcpSocket
first_packet = record sock { receiver_buffer = record ring { write_count = 18 } }

abbrev pub packet_read : TcpSocket
packet_read = record sock {
  receiver_buffer = record ring { read_count = 18; write_count = 18 };
  out = read_packet (2 ∷ 0 ∷ 11 ∷ 12 ∷ []) ∷ [];
}

pub first_byte-Processed : Processed little first_byte first_byte [] waiting
first_byte-Processed = record {
  parses = short (2 ∷ []) (omega arith);
  called = refl;
  valid = record {
    bits = 4;
    bits_small = omega arith;
    power = refl;
    mask = refl;
    storage = refl;
    read_word = omega arith;
    write_word = omega arith;
    fits = omega arith;
  };
  same_capacity = refl;
  same_state = refl;
  has_write = λ e h. (e, h);
  same_callback = refl;
}

pub first_packet-Processed :
    Processed little first_packet packet_read ((2 ∷ 0 ∷ 11 ∷ 12 ∷ []) ∷ []) waiting
first_packet-Processed = record {
  parses =
      packet (2 ∷ 0 ∷ 11 ∷ 12 ∷ [])
        (record { headed = omega arith; filled = omega arith; small = omega arith; exact = refl })
        refl (short [] (omega arith));
  called = refl;
  valid = record {
    bits = 4;
    bits_small = omega arith;
    power = refl;
    mask = refl;
    storage = refl;
    read_word = omega arith;
    write_word = omega arith;
    fits = omega arith;
  };
  same_capacity = refl;
  same_state = refl;
  has_write = λ e h. (e, h);
  same_callback = refl;
}

abbrev pub clogged : TcpSocket
clogged = record sock { receiver_buffer = full }

abbrev pub unconnected : TcpSocket
unconnected = record sock { state = closed }

abbrev pub accepted_socket : TcpSocket
accepted_socket = record unconnected {
  socketfd = some 6;
  state = connected;
  share_this_helper = live;
  read_event = record { handler = on_read_event; added = true };
  write_event = some (record { handler = on_write_event; added = false });
}

pub accepted_run : Reach unconnected accepted_socket
unfolding begin_process_in_network_loop
accepted_run = next here (process 6 true refl)

pub cleared_handler : cleared.handler ≢ on_connection
cleared_handler e = cc

pub closed_state : unconnected.state ≢ connected
closed_state e = cc

abbrev pub calls : List Outgoing
calls = accepts 1 ∷ accepts 9 ∷ busy ∷ []

abbrev pub caller_buffer : List ℕ
caller_buffer = 0 ∷ 0 ∷ 31 ∷ 32 ∷ 33 ∷ []

abbrev pub long_buffer : List ℕ
long_buffer = 8 ∷ 0 ∷ 1 ∷ 2 ∷ 3 ∷ 4 ∷ 5 ∷ 6 ∷ 7 ∷ 8 ∷ []

pub some_read : take (free_of ring) caller_buffer ≢ []
unfolding current_series_write_head
some_read e = cc

pub frames_received : contents sock.receiver_buffer ≡ flatten two_frames
unfolding flatten
frames_received = refl
