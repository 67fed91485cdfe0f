-- ===== src/RingBuffer/Threads/Invariant.antt =====
-- The invariant of the interleavings of RingBuffer/Threads, and that each step keeps it.
use reechat_base.Base.{
  ℕ, ◌+◌, ◌-◌, ◌≤◌, ◌<◌, ◌≡◌, refl, sym, ap, ap₂, ◌∙◌, List, [], ◌++◌, some, length, take, drop,
  get_or, min, arith, add32, sub32, ltb, false, append-nil, append_assoc, take-append-drop,
  tabulate_ext, length-take, length-drop, take-append_left, length-append, take-take,
}
use reechat_base.RingBuffer.{
  RingBuffer, content_size, available_series_read, current_series_read_head, load,
  consume_series_read_len,
}
use reechat_base.RingBuffer.Geometry.{IsValid, capacity_small}
use reechat_base.RingBuffer.Contents.{
  contents, length-contents, place, consume, Written, contents-publish, publish-IsValid, untouched,
  contents-consume, consume-IsValid,
}
use reechat_base.RingBuffer.Series.{series_read_lem, consume_series_read_len-consume}
use reechat_base.RingBuffer.Threads.{
  Writer, resting, checked, copied, Reader, waiting, sized, loaded, Threads,
}

-- What each thread may rely on at its place in the code, whatever the other one does.
abbrev pub WriterOk : RingBuffer → Writer → Type 0
WriterOk r resting = Unit {0}
WriterOk r (checked content len) = (len ≤ length content) × (content_size r + len ≤ r.capacity)
WriterOk r (copied content len) =
    (len ≤ length content)
    × (content_size r + len ≤ r.capacity)
    × ((i : ℕ) → i < len → get_or r.data_arr (place r r.write_count i) 0 ≡ get_or content i 0)

abbrev pub run_length : RingBuffer → ℕ
run_length r = min (length (contents r)) (r.capacity - current_series_read_head r)

abbrev pub ReaderOk : RingBuffer → Reader → Type 0
ReaderOk r waiting = Unit {0}
ReaderOk r (sized n) = n ≤ run_length r
ReaderOk r (loaded bytes) =
    (length bytes ≤ run_length r) × (bytes ≡ take (length bytes) (contents r))

pub record Inv (s : Threads) : Type 0 where
  pub valid : IsValid s.ring
  pub ledger : s.sent ≡ s.received ++ contents s.ring
  pub writer_ok : WriterOk s.ring s.writer
  pub reader_ok : ReaderOk s.ring s.reader

-- The reader's facts survive whatever leaves its place and the front of the contents alone.
ReaderOk-grow :
    (r r' : RingBuffer) (more : List ℕ) (reader : Reader)
    → contents r' ≡ contents r ++ more
    → r'.capacity - current_series_read_head r' ≡ r.capacity - current_series_read_head r
    → ReaderOk r reader
    → ReaderOk r' reader
ReaderOk-grow r r' more waiting e h ok = tt
ReaderOk-grow r r' more (sized n) e h ok =
    omega (arith, ap length e, length-append (contents r) more)
ReaderOk-grow r r' more (loaded bytes) e h ok = (
  omega (arith, ap length e, length-append (contents r) more),
  ok.1
      ∙ sym (
          ap (take (length bytes)) e
          ∙ take-append_left (length bytes) (contents r) more (omega arith)),
)

abbrev pub with_array : RingBuffer → List ℕ → RingBuffer
with_array r arr = record r { data_arr = arr }

module _ {s : Threads} (v : Inv s) where
  pub check-Inv :
      (content : List ℕ) (len : ℕ)
      → len ≤ length content
      → ltb (sub32 s.ring.capacity (content_size s.ring)) len ≡ false
      → Inv (record s { writer = checked content len })
  check-Inv content len enough room = record {
    valid = v.valid;
    ledger = v.ledger;
    writer_ok =
        (enough, (let small = capacity_small v.valid in let fits = v.valid.fits in ground arith));
    reader_ok = v.reader_ok;
  }

  module _ (content arr : List ℕ) (len : ℕ) (ok : WriterOk s.ring (checked content len))
      (w : Written s.ring content len arr) where
    contents-copied : contents (with_array s.ring arr) ≡ contents s.ring
    contents-copied = tabulate_ext _ _ _ (untouched v.valid ok.1 w)

    pub copy-Inv : Inv (record s { ring = (with_array s.ring arr); writer = copied content len })
    unfolding current_series_read_head
    copy-Inv = record {
      valid = record {
        bits = v.valid.bits;
        bits_small = v.valid.bits_small;
        power = v.valid.power;
        mask = v.valid.mask;
        storage = w.same_length ∙ v.valid.storage;
        read_word = v.valid.read_word;
        write_word = v.valid.write_word;
        fits = v.valid.fits;
      };
      ledger = v.ledger ∙ ap (◌++◌ s.received) (sym contents-copied);
      writer_ok = (ok.0, ok.1, w.fresh);
      reader_ok =
          ReaderOk-grow s.ring (with_array s.ring arr) [] s.reader
            (contents-copied ∙ sym (append-nil _)) refl v.reader_ok;
    }

  pub publish-Inv :
      (content : List ℕ) (len : ℕ)
      → WriterOk s.ring (copied content len)
      → Inv (record s {
        ring = record s.ring { write_count = add32 s.ring.write_count len };
        writer = resting;
        sent = s.sent ++ take len content;
      })
  unfolding current_series_read_head
  publish-Inv content len (enough, room, fresh) =
      let w : Written s.ring content len s.ring.data_arr = record {
        same_length = refl;
        fresh = fresh;
        old = λ j _ _. refl;
      } in
      let grown = contents-publish v.valid room w enough in
      record {
        valid = publish-IsValid v.valid room w;
        ledger =
            ap (λ l. l ++ take len content) v.ledger
            ∙ append_assoc s.received (contents s.ring) (take len content)
            ∙ ap (◌++◌ s.received) (sym grown);
        writer_ok = tt;
        reader_ok = ReaderOk-grow s.ring _ (take len content) s.reader grown refl v.reader_ok;
      }

  pub size-Inv :
      (n : ℕ) → available_series_read s.ring ≡ some n → Inv (record s { reader = sized n })
  size-Inv n e = record {
    valid = v.valid;
    ledger = v.ledger;
    writer_ok = v.writer_ok;
    reader_ok = let (m, a, b, _) = series_read_lem v.valid in ground arith;
  }

  pub fetch-Inv :
      (n m : ℕ) (bytes : List ℕ)
      → n ≤ run_length s.ring
      → m ≤ n
      → load s.ring (current_series_read_head s.ring) m ≡ some bytes
      → Inv (record s { reader = loaded bytes })
  fetch-Inv n m bytes ok h e =
      let (k, a, b, c) = series_read_lem v.valid in
      let got : bytes ≡ take m (contents s.ring) = cc (c m (omega arith)) in
      let size : length bytes ≡ m = omega (arith, ap length got, length-take m (contents s.ring)) in
      record {
        valid = v.valid;
        ledger = v.ledger;
        writer_ok = v.writer_ok;
        reader_ok = (omega arith, got ∙ ap (λ j. take j (contents s.ring)) (sym size));
      }

-- A writer in the middle of its call keeps its room when the reader moves on.
WriterOk-shrink :
    (r : RingBuffer) (k : ℕ) (writer : Writer)
    → content_size (consume r k) ≤ content_size r
    → WriterOk r writer
    → WriterOk (consume r k) writer
WriterOk-shrink r k resting h ok = tt
WriterOk-shrink r k (checked content len) h ok = (ok.0, omega arith)
WriterOk-shrink r k (copied content len) h ok = (ok.0, omega arith, ok.2)

pub release-Inv :
    {s : Threads} (v : Inv s) (bytes : List ℕ) (k : ℕ) (ring : RingBuffer)
    → ReaderOk s.ring (loaded bytes)
    → k ≤ length bytes
    → consume_series_read_len s.ring k ≡ some ring
    → Inv (record s { ring = ring; reader = waiting; received = s.received ++ take k bytes })
release-Inv {s} v bytes k ring ok h e =
    let held : k ≤ content_size s.ring = omega (arith, length-contents s.ring) in
    let rest = contents-consume v.valid held in
    let front : take k bytes ≡ take k (contents s.ring) =
      ap (take k) ok.1 ∙ take-take k (length bytes) (contents s.ring) h in
    let shrunk : content_size (consume s.ring k) ≤ content_size s.ring = omega (
      arith,
      length-contents s.ring,
      length-contents (consume s.ring k),
      ap length rest,
      length-drop k (contents s.ring),
    ) in
    rw (consume_series_read_len-consume s.ring ring k e) (record {
      valid = consume-IsValid v.valid held;
      ledger =
          v.ledger
          ∙ ap (◌++◌ s.received) (sym (take-append-drop k (contents s.ring)))
          ∙ sym (append_assoc s.received (take k (contents s.ring)) (drop k (contents s.ring)))
          ∙ ap₂ (λ a b. (s.received ++ a) ++ b) (sym front) (sym rest);
      writer_ok = WriterOk-shrink s.ring k s.writer shrunk v.writer_ok;
      reader_ok = tt;
    })
