-- ===== src/Examples/Bytes.antt =====
-- Nine bytes behind three bits: a head of three bytes, a whole word, and a tail of two.
use rudp_network.Prelude.{
  ℕ, ◌+◌, ◌*◌, ◌/◌, ◌%◌, ◌^◌, ◌≡◌, refl, arith, List, [], ◌∷◌, ◌++◌, some, true, replicate,
}
use rudp_network.Prelude.Int.{pos}
use rudp_network.Memory.{val, IsBytes, append-IsBytes}
use rudp_network.Stream.Error.{ProtocolError}
use rudp_network.Stream.Write
use rudp_network.Stream.Write.{WriteStream}
use rudp_network.Stream.Read
use rudp_network.Stream.Read.{ReadStream}
use rudp_network.Stream.Advance.{Writing, Reading, Wrote, Readed}
use rudp_network.Stream.Bytes.{read_bytes-write_bytes}
use rudp_network.Examples.Packets.{zeros-IsBytes}

abbrev source : List ℕ
source = 1 ∷ 2 ∷ 3 ∷ 4 ∷ 5 ∷ 6 ∷ 7 ∷ 8 ∷ 9 ∷ []

source-IsBytes : IsBytes source
source-IsBytes =
    append-IsBytes (1 ∷ 2 ∷ 3 ∷ 4 ∷ 5 ∷ []) (6 ∷ 7 ∷ 8 ∷ 9 ∷ [])
      (omega arith, (omega arith, (omega arith, (omega arith, (omega arith, tt)))))
      (omega arith, (omega arith, (omega arith, (omega arith, tt))))

-- Three bits, 101, are in the scratch.
abbrev pub writing_stream : WriteStream
writing_stream = record {
  error = ProtocolError.none;
  writer = record {
    buffer = replicate 16 0;
    scratch = 5;
    num_bits = 128;
    num_words = 4;
    bits_written = 3;
    word_index = 0;
    scratch_bits = pos 3;
  };
}

pub writing_stream-Writing : Writing writing_stream 5
writing_stream-Writing = record {
  no_error = refl;
  view = record {
    pending = 3;
    scratch_bits = refl;
    pending_lt = omega arith;
    position = refl;
    size = refl;
    room = omega arith;
    within = omega arith;
    bytes = zeros-IsBytes 16;
    scratch_lt = omega arith;
    stored = refl;
  };
}

abbrev packet : List ℕ
packet = (5 ∷ []) ++ (source ++ (0 ∷ 0 ∷ []))

abbrev unread : ℕ
unread = val packet / 2 ^ 3

abbrev reading_stream : ReadStream
reading_stream = record {
  error = ProtocolError.none;
  bits_read = 3;
  reader = record {
    buffer = packet;
    scratch = unread % 2 ^ 29;
    num_bits = 80;
    num_bytes = 10;
    bits_read = 3;
    scratch_bits = 29;
    word_index = 1;
  };
}

reading_stream-Reading : Reading reading_stream unread
reading_stream-Reading = record {
  no_error = refl;
  counted = refl;
  view = record {
    position = refl;
    scratch_lt = omega arith;
    size = refl;
    room = omega arith;
    within = omega arith;
    bytes =
        append-IsBytes (5 ∷ []) (source ++ (0 ∷ 0 ∷ [])) (omega arith, tt)
          (append-IsBytes source (0 ∷ 0 ∷ []) source-IsBytes (omega arith, (omega arith, tt)));
    unread = refl;
    scratch = refl;
  };
}

read_bytes-write_bytes_example :
    (s' : WriteStream) × (t' : ReadStream) × (Write.serialize_bytes writing_stream source 9
      ≡ some (record { ok = true; stream = s'; value = source }))
    × Wrote writing_stream 5 (2 ^ 5 * val source) (5 + 8 * 9) s'
    × (Read.serialize_bytes reading_stream (replicate 16 0) 9
        ≡ some (record { ok = true; stream = t'; value = source ++ replicate 7 0 }))
    × Readed reading_stream unread (5 + 8 * 9) t'
read_bytes-write_bytes_example =
    read_bytes-write_bytes writing_stream reading_stream source (replicate 16 0) 9
      writing_stream-Writing reading_stream-Reading source-IsBytes (omega arith) (omega arith)
      (omega arith) refl (omega arith) refl
