-- ===== src/Examples/Texts.antt =====
-- The string "hi!" behind three bits, in a buffer of twelve characters.
use rudp_network.Prelude.{
  ℕ, ◌+◌, ◌*◌, ◌/◌, ◌%◌, ◌^◌, ◌≡◌, refl, arith, List, [], ◌∷◌, ◌++◌, some, true, replicate,
}
use rudp_network.Prelude.Int.{pos, to_uint32}
use rudp_network.Memory.{val, IsBytes, append-IsBytes}
use rudp_network.Util.BitsRequired.{bits_required}
use rudp_network.Stream.{write_stream, read_stream}
use rudp_network.Stream.Error.{ProtocolError}
use rudp_network.Stream.Write.{WriteStream}
use rudp_network.Stream.Read.{ReadStream}
use rudp_network.Stream.Advance.{Reading, Wrote, Readed}
use rudp_network.Serialize.Text.{serialize_string}
use rudp_network.Serialize.Text.RoundTrip.{string_code, serialize_string_round_trip}
use rudp_network.Examples.Packets.{zeros-IsBytes}
use rudp_network.Examples.Bytes.{writing_stream, writing_stream-Writing}

abbrev text : List ℕ
text = 104 ∷ 105 ∷ 33 ∷ []

string-IsBytes : IsBytes (text ++ 0 ∷ replicate 8 7)
string-IsBytes =
    append-IsBytes (text ++ 0 ∷ []) (replicate 8 7)
      (omega arith, (omega arith, (omega arith, (omega arith, tt))))
      (
        omega arith,
        (
          omega arith,
          (
            omega arith,
            (omega arith, (omega arith, (omega arith, (omega arith, (omega arith, tt))))),
          ),
        ),
      )

-- 101, the length 3 in four bits, one bit of padding, and the bytes.
abbrev packet : List ℕ
packet = (29 ∷ text) ++ replicate 8 0

abbrev unread : ℕ
unread = val packet / 2 ^ 3

abbrev reading_stream : ReadStream
reading_stream = record {
  error = ProtocolError.none;
  bits_read = 3;
  reader = record {
    buffer = packet;
    scratch = unread % 2 ^ 29;
    num_bits = 80;
    num_bytes = 10;
    bits_read = 3;
    scratch_bits = 29;
    word_index = 1;
  };
}

reading_stream-Reading : Reading reading_stream unread
reading_stream-Reading = record {
  no_error = refl;
  counted = refl;
  view = record {
    position = refl;
    scratch_lt = omega arith;
    size = refl;
    room = omega arith;
    within = omega arith;
    bytes =
        append-IsBytes (29 ∷ text) (replicate 8 0)
          (omega arith, (omega arith, (omega arith, (omega arith, tt)))) (zeros-IsBytes 8);
    unread = refl;
    scratch = refl;
  };
}

length_width : bits_required (to_uint32 (pos 0)) (to_uint32 (pos 11)) ≡ some 4
unfolding bits_required to_uint32
length_width = refl

serialize_string_round_trip_example :
    (s' : WriteStream) × (t' : ReadStream) × (serialize_string write_stream 12 writing_stream
        (text ++ 0 ∷ replicate 8 7)
      ≡ some (record { ok = true; stream = s'; value = text ++ 0 ∷ replicate 8 7 }))
    × Wrote writing_stream 5 (string_code 4 1 text) (4 + (1 + 8 * 3)) s'
    × (serialize_string read_stream 12 reading_stream (replicate 12 9)
        ≡ some (record { ok = true; stream = t'; value = text ++ 0 ∷ replicate 8 9 }))
    × Readed reading_stream unread (4 + (1 + 8 * 3)) t'
serialize_string_round_trip_example =
    serialize_string_round_trip 12 4 (omega arith) length_width text (replicate 8 7)
      (omega arith, (omega arith, (omega arith, tt))) string-IsBytes (omega arith) writing_stream
      reading_stream (replicate 12 9) 1 writing_stream-Writing reading_stream-Reading refl refl
      (omega arith) (omega arith) (omega arith) refl
