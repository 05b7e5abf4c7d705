-- ===== src/Examples/Checks.antt =====
-- SerializeCheck at particular names and streams.
use rudp_network.Prelude.{
  ℕ, ◌+◌, ◌*◌, ◌/◌, ◌%◌, ◌^◌, ◌≡◌, refl, arith, List, [], ◌∷◌, some, true, false,
}
use rudp_network.Prelude.Int.{pos}
use rudp_network.Memory.{bytes_of, bytes_of-IsBytes, val}
use rudp_network.BitWriter.Refines as WriterView
use rudp_network.BitReader.Refines as ReaderView
use rudp_network.Util.Hash.{hash_string, hash_mix, upper, widen_char}
use rudp_network.Stream.Error.{ProtocolError}
use rudp_network.Stream.Write.{WriteStream}
use rudp_network.Stream.Read.{ReadStream}
use rudp_network.Stream.Advance.{Wrote, Readed}
use rudp_network.Stream.Check.{write_check, read_check, read_check-write_check}

-- Two names, and what they hash to.
abbrev ab : List ℕ
ab = 97 ∷ 98 ∷ 0 ∷ []

abbrev ac : List ℕ
ac = 97 ∷ 99 ∷ 0 ∷ []

hash_ab : hash_string ab 0 ≡ some 68371888
unfolding hash_string hash_mix upper widen_char
hash_ab = refl

hash_ac : hash_string ac 0 ≡ some 68370849
unfolding hash_string hash_mix upper widen_char
hash_ac = refl

-- Thirty bits are in the scratch, all zero but the lowest.
abbrev writer : WriteStream
writer = record {
  error = ProtocolError.none;
  writer = record {
    buffer = bytes_of 8 0;
    scratch = 1;
    num_bits = 64;
    num_words = 2;
    bits_written = 30;
    word_index = 0;
    scratch_bits = pos 30;
  };
}

writer-Refines : WriterView.Refines writer.writer 1
writer-Refines = record {
  pending = 30;
  scratch_bits = refl;
  pending_lt = omega arith;
  position = refl;
  size = refl;
  room = omega arith;
  within = omega arith;
  bytes = bytes_of-IsBytes 8 0;
  scratch_lt = omega arith;
  stored = refl;
}

-- Six bits have been read; two zero bits and the hash of the first name follow.
abbrev packet : List ℕ
packet = bytes_of 8 (0x2A + 256 * 68371888)

abbrev unread : ℕ
unread = val packet / 2 ^ 6

abbrev reader : ReadStream
reader = record {
  error = ProtocolError.none;
  bits_read = 6;
  reader = record {
    buffer = packet;
    scratch = unread % 2 ^ 26;
    num_bits = 64;
    num_bytes = 8;
    bits_read = 6;
    scratch_bits = 26;
    word_index = 1;
  };
}

reader-Refines : ReaderView.Refines reader.reader unread
reader-Refines = record {
  position = refl;
  scratch_lt = omega arith;
  size = refl;
  room = omega arith;
  within = omega arith;
  bytes = bytes_of-IsBytes 8 (0x2A + 256 * 68371888);
  unread = refl;
  scratch = refl;
}

read_check-write_check_example :
    (s' : WriteStream) × (t' : ReadStream) × (write_check true writer ab
      ≡ some (record { ok = true; stream = s'; value = tt }))
    × Wrote writer 1 (2 ^ 2 * 68371888) (2 + 32) s'
    × (read_check true reader ac ≡ some (record { ok = false; stream = t'; value = tt }))
    × Readed reader unread (2 + 32) t'
read_check-write_check_example =
    read_check-write_check writer reader ab ac hash_ab hash_ac
      (record { no_error = refl; view = writer-Refines })
      (record { no_error = refl; counted = refl; view = reader-Refines }) (omega arith) refl
      (omega arith) refl
