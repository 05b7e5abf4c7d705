-- ===== src/Examples/Measures.antt =====
-- The size of a connection request, measured and written.
use rudp_network.Prelude.{◌+◌, ◌≡◌, refl, arith, some, true, replicate}
use rudp_network.Prelude.Int.{pos}
use rudp_network.BitWriter.{BitWriter}
use rudp_network.Stream.{write_stream, measure_stream}
use rudp_network.Stream.Error.{ProtocolError}
use rudp_network.Stream.Write.{WriteStream}
use rudp_network.Stream.Measure.{MeasureStream}
use rudp_network.Stream.Advance.{Writing}
use rudp_network.Packet.{Packet, start_req}
use rudp_network.Packet.Serialize.{serialize}
use rudp_network.Packet.Measured.{serialize-measured}
use rudp_network.Examples.Packets.{zeros-IsBytes}

abbrev empty_writer : BitWriter
empty_writer = record {
  buffer = replicate 16 0;
  scratch = 0;
  num_bits = 128;
  num_words = 4;
  bits_written = 0;
  word_index = 0;
  scratch_bits = pos 0;
}

abbrev empty_stream : WriteStream
empty_stream = record { error = ProtocolError.none; writer = empty_writer }

empty_stream-Writing : Writing empty_stream 0
empty_stream-Writing = record {
  no_error = refl;
  view = record {
    pending = 0;
    scratch_bits = refl;
    pending_lt = omega arith;
    position = refl;
    size = refl;
    room = omega arith;
    within = omega arith;
    bytes = zeros-IsBytes 16;
    scratch_lt = omega arith;
    stored = refl;
  };
}

abbrev request : Packet
request = start_req (record { cmd = 101; sid = 0; uid = 77 })

abbrev meter : MeasureStream
meter = record { error = ProtocolError.none; total_bytes = 16; bits_written = 0 }

serialize-measured_example :
    (m' : MeasureStream) × (s' : WriteStream) × (serialize measure_stream meter request
      ≡ some (record { ok = true; stream = m'; value = request }))
    × (serialize write_stream empty_stream request
        ≡ some (record { ok = true; stream = s'; value = request }))
    × (m'.bits_written + empty_writer.bits_written ≡ meter.bits_written + (s'.writer).bits_written)
serialize-measured_example =
    serialize-measured request meter empty_stream (omega arith, omega arith, omega arith)
      empty_stream-Writing (omega arith) (omega arith)
