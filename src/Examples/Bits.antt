-- ===== src/Examples/Bits.antt =====
-- Bit streams, numbers and checksums at concrete values.
use rudp_network.Prelude.{
  ℕ, ◌+◌, ◌-◌, ◌/◌, ◌%◌, ◌^◌, ◌≡◌, refl, arith, List, [], ◌∷◌, ◌++◌, some, true, not,
}
use rudp_network.Prelude.Int.{pos}
use rudp_network.Memory.{bytes_of, bytes_of-IsBytes, val, IsBytes}
use rudp_network.BitWriter.{BitWriter, write_bits}
use rudp_network.BitWriter.Refines as WriterView
use rudp_network.BitWriter.Refines.{SameBuffer}
use rudp_network.BitWriter.Append.{Appended, write_bits-Appended}
use rudp_network.BitReader.{BitReader, read_bits}
use rudp_network.BitReader.Refines as ReaderView
use rudp_network.BitReader.Refines.{Taken, Aligned, read_bits-Taken, read_align-Aligned}
use rudp_network.Stream.Error.{ProtocolError}
use rudp_network.Stream.Write.{WriteStream}
use rudp_network.Stream.Read.{ReadStream}
use rudp_network.Util.BitsRequired.{IsWidth, bits_required, bits_required-IsWidth}
use rudp_network.Util.Crc.{calculate_crc32, calculate_crc32-append}
use rudp_network.Util.Sequence.{
  sequence_greater_than, sequence_less_than, sequence_difference, sequence_greater_than_total,
  sequence_difference_sign,
}

abbrev memory : List ℕ
memory = 0x2A ∷ 0 ∷ 0 ∷ 0 ∷ bytes_of 4 7

memory-IsBytes : IsBytes memory
memory-IsBytes = (omega arith, (omega arith, (omega arith, (omega arith, bytes_of-IsBytes 4 7))))

-- Thirty bits are in the scratch, all zero but the lowest.
abbrev writer : BitWriter
writer = record {
  buffer = memory;
  scratch = 1;
  num_bits = 64;
  num_words = 2;
  bits_written = 30;
  word_index = 0;
  scratch_bits = pos 30;
}

writer-Refines : WriterView.Refines writer 1
writer-Refines = record {
  pending = 30;
  scratch_bits = refl;
  pending_lt = omega arith;
  position = refl;
  size = refl;
  room = omega arith;
  within = omega arith;
  bytes = memory-IsBytes;
  scratch_lt = omega arith;
  stored = refl;
}

-- The field crosses into the second word.
write_bits-Appended_example :
    (w' : BitWriter) × (write_bits 0x1FF 8 writer ≡ some w') × Appended writer 1 8 0x1FF w'
write_bits-Appended_example =
    write_bits-Appended 0x1FF 8 writer writer-Refines (omega arith) (omega arith) (omega arith)

abbrev reader : BitReader
reader = record {
  buffer = memory;
  scratch = 5;
  num_bits = 64;
  num_bytes = 8;
  bits_read = 3;
  scratch_bits = 29;
  word_index = 1;
}

abbrev unread : ℕ
unread = val memory / 2 ^ 3

reader-Refines : ReaderView.Refines reader unread
reader-Refines = record {
  position = refl;
  scratch_lt = omega arith;
  size = refl;
  room = omega arith;
  within = omega arith;
  bytes = memory-IsBytes;
  unread = refl;
  scratch = refl;
}

read_bits-Taken_example :
    (r' : BitReader) × (read_bits 32 reader ≡ some (unread % 2 ^ 32, r'))
    × Taken reader unread 32 r'
read_bits-Taken_example =
    read_bits-Taken 32 reader reader-Refines (omega arith) (omega arith) (omega arith)

abbrev write_stream_at : WriteStream
write_stream_at = record { error = ProtocolError.none; writer = writer }

abbrev read_stream_at : ReadStream
read_stream_at = record { error = ProtocolError.none; bits_read = 3; reader = reader }

bits_required-IsWidth_example :
    (bits : ℕ) × (bits_required 0 105 ≡ some bits) × IsWidth ((105 + 2 ^ 32 - 0) % 2 ^ 32) bits
bits_required-IsWidth_example = bits_required-IsWidth 0 105 (omega arith)

calculate_crc32-append_example :
    calculate_crc32 ((7 ∷ 0 ∷ []) ++ 42 ∷ []) 0
    ≡ calculate_crc32 (42 ∷ []) (calculate_crc32 (7 ∷ 0 ∷ []) 0)
calculate_crc32-append_example = calculate_crc32-append (7 ∷ 0 ∷ []) (42 ∷ []) 0 (omega arith)

sequence_greater_than_total_example :
    not (sequence_greater_than 3 65530) ≡ sequence_less_than 3 65530
sequence_greater_than_total_example =
    sequence_greater_than_total 3 65530 (omega arith) (omega arith) (omega arith)

sequence_difference_sign_example :
    (sequence_less_than (5 + 32770) 5 ≡ true) × (sequence_difference (5 + 32770) 5 ≡ pos 32770)
sequence_difference_sign_example =
    sequence_difference_sign 5 32770 (omega arith) (omega arith) (omega arith)
