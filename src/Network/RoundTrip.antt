-- ===== src/Network/RoundTrip.antt =====
-- WritePacket and ReadPacket together: what one writes the other reads.
use rudp_network.Prelude.{
  ◌>>=◌, ℕ, ◌+◌, ◌-◌, ◌*◌, ◌/◌, ◌%◌, ◌^◌, ◌≤◌, ◌<◌, ◌≡◌, refl, sym, ap, subst, ◌∙◌, arith, List,
  none, some, length, true, false,
}
use rudp_network.Prelude.Int.{pos}
use rudp_network.Bits.{join-lt, div-two-pow-add}
use rudp_network.Memory.{val, IsBytes}
use rudp_network.Util.BitsRequired.{IsWidth}
use rudp_network.BitWriter
use rudp_network.BitWriter.Flush
use rudp_network.BitWriter.Refines.{SameBuffer}
use rudp_network.BitWriter.Flush.{flush_bits-FlushedOut, FlushedOut}
use rudp_network.BitReader
use rudp_network.Stream.{write_stream, read_stream}
use rudp_network.Stream.Error.{ProtocolError}
use rudp_network.Stream.Write
use rudp_network.Stream.Write.{WriteStream}
use rudp_network.Stream.Read
use rudp_network.Stream.Start.{started, init-started, started-Reading}
use rudp_network.Stream.Read.{ReadStream}
use rudp_network.Stream.Advance.{
  IsRange, Width, gap, range-Width, Writing, Reading, write_bits-Wrote, read_bits-Readed,
  write_integer-Wrote, read_integer-Readed,
}
use rudp_network.Stream.Codec.{Codec, Wrote-both, field_parts}
use rudp_network.Serialize.{Serializer}
use rudp_network.Packet.{Packet, PacketInfo, get_type}
use rudp_network.Packet.Factory.{PacketFactory, Junk, new_packet, create_packet}
use rudp_network.Packet.RoundTrip.{width, packet_codec}
use rudp_network.Packet.Codecs.{IsWellFormed}
use rudp_network.Packet.Serialize.{serialize}
use rudp_network.Network.{
  expected_checksum, Written, write_prefix, write_checksum, write_body, write_packet, read_body,
  read_packet,
}
use rudp_network.Network.Prefix.{write_prefix-Wrote, read_prefix-Readed}
use rudp_network.Network.Field.{middle_field, zeros_below}
use rudp_network.Network.Checksum.{Checked, write_checksum-Checked}

-- A caller that may write the packet: the settings and the buffer that WritePacket asks for, the
-- packet's type below the number of types, and room for the prefix, the checksum, the `type_bits`
-- bits of the type and the body.
pub record CanWrite (info : PacketInfo) (factory : PacketFactory) (p : Packet) (buffer : List ℕ)
    (size : ℕ) : Type 0 where
  pub has_checksum : info.raw_format ≡ false
  pub protocol : 0 < info.protocol_id
  pub well_formed : IsWellFormed p
  pub many_types : 1 < factory.num_packet_types
  pub int_types : factory.num_packet_types < 2 ^ 31
  pub known_type : get_type p < factory.num_packet_types
  pub type_bits : ℕ
  pub type_width : Width (pos 0) (pos (factory.num_packet_types - 1)) type_bits
  pub bytes : IsBytes buffer
  pub words : size % 4 ≡ 0
  pub allocated : size ≤ length buffer
  pub int_size : size < 2 ^ 28
  pub room : 8 * info.prefix_bytes + 32 + type_bits + width p ≤ 8 * size

-- The bytes that the packet takes.
abbrev pub packet_size : ℕ → ℕ → Packet → ℕ
packet_size prefix type_bits p = (8 * prefix + 32 + type_bits + width p + 7) / 8

-- The buffer when the stream is flushed and the checksum is not there yet: zeros for the prefix
-- and the checksum, then the type and the body.
pub record Filled (info : PacketInfo) (total code : ℕ) (buffer mem : List ℕ) : Type 0 where
  pub bytes : IsBytes mem
  pub same_length : length mem ≡ length buffer
  pub words : ℕ
  pub covers : total ≤ 32 * words
  pub in_buffer : 4 * words ≤ length mem
  pub stored : val mem % 2 ^ (32 * words) ≡ 2 ^ (8 * info.prefix_bytes + 32) * code

-- A datagram of `bytes` bytes, and what lies behind it in memory, with a good checksum and the
-- number `content` behind it.
pub record Readable (info : PacketInfo) (bytes field_width content : ℕ) (mem : List ℕ)
    : Type 0 where
  pub crc : ℕ
  pub expected : expected_checksum info bytes mem ≡ some crc
  pub stored : val mem / 2 ^ (8 * info.prefix_bytes) % 2 ^ 32 ≡ crc
  pub is_bytes : IsBytes mem
  pub room : (bytes + 3) / 4 * 4 ≤ length mem
  pub field : val mem / 2 ^ (8 * info.prefix_bytes + 32) % 2 ^ field_width ≡ content

module _ {H : Type 0} (write_header : Serializer WriteStream H)
    (read_header : Serializer ReadStream H) (junk : Junk) {info : PacketInfo}
    {factory : PacketFactory} {p : Packet} {buffer : List ℕ} {size : ℕ}
    (c : CanWrite info factory p buffer size) where
  abbrev pub k : ℕ
  k = 8 * info.prefix_bytes

  abbrev pub tb : ℕ
  tb = c.type_bits

  abbrev pub type : ℕ
  type = get_type p

  abbrev pub top : ℕ
  top = factory.num_packet_types - 1

  types : IsRange (pos 0) (pos top)
  types = omega (arith, c.many_types, c.int_types)

  type_IsWidth : IsWidth (gap (pos 0) (pos top)) tb
  type_IsWidth =
      let w = range-Width (pos 0) (pos top) types in
      let e : w.0 ≡ c.type_bits = ground (arith, w.1, c.type_width) in
      subst (IsWidth (gap (pos 0) (pos top))) e w.2

  pub blank :
      (before : Packet) × (new_packet junk type ≡ some before)
      × Codec (serialize write_stream) (serialize read_stream) p before p (width p)
  blank = packet_codec junk p c.well_formed

  abbrev pub body : ℕ
  body = (blank.2).code

  abbrev pub content : ℕ
  content = gap (pos 0) (pos type) + 2 ^ tb * body

  abbrev pub total : ℕ
  total = k + 32 + tb + width p

  abbrev pub bytes : ℕ
  bytes = packet_size info.prefix_bytes tb p

  -- The prefix and the place of the checksum.
  head_written :
      (s : WriteStream)
      → Writing s 0
      → (s.writer).bits_written ≡ 0
      → (s.writer).num_bits ≡ 8 * size
      → (s1 : WriteStream) × (s2 : WriteStream) × (write_prefix info.prefix_bytes s ≡ some s1)
        × (Write.serialize_bits s1 0 32 ≡ some (record { ok = true; stream = s2; value = 0 }))
        × Writing s2 0
        × ((s2.writer).bits_written ≡ k + 32)
        × SameBuffer s.writer s2.writer
  head_written s w start size_eq =
      let a = write_prefix-Wrote info.prefix_bytes s w (omega (arith, c.room)) in
      let b =
        write_bits-Wrote a.0 0 32 a.2.writing (omega arith) (omega arith)
          (omega (arith, c.room, a.2.bits_written, a.2.same.num_bits)) in
      let both = Wrote-both 0 0 0 k 32 a.2 b.2 in
      (
        a.0,
        b.0,
        a.1,
        b.1,
        subst (Writing b.0) (omega arith) both.writing,
        omega (arith, both.bits_written),
        both.same,
      )

  -- The type, the body and the flush.
  body_written :
      (s : WriteStream)
      → Writing s 0
      → (s.writer).bits_written ≡ k + 32
      → (s.writer).num_bits ≡ 8 * size
      → length (s.writer).buffer ≡ length buffer
      → (mem : List ℕ) × (write_body write_header read_header info factory p s
          ≡ (write_checksum info bytes mem >>= λ b. some (record { bytes = bytes; buffer = b })))
        × Filled info total content buffer mem
  unfolding write_body Write.flush Write.bytes_processed BitWriter.bytes_written
  body_written s w at size_eq same_length =
      let t =
        write_integer-Wrote (pos 0) (pos top) (pos type) types (omega arith)
          (omega (arith, c.known_type)) c.type_width type_IsWidth s w (omega (arith, c.room)) in
      let d =
        (blank.2).writes t.0 _ t.2.writing
          (omega (arith, c.room, t.2.bits_written, t.2.same.num_bits)) in
      let both = Wrote-both 0 (gap (pos 0) (pos type)) body tb (width p) t.2 d.2 in
      let f = flush_bits-FlushedOut (d.0).writer (both.writing).view in
      let written : ((f.0).bits_written + 7) / 8 ≡ bytes =
        omega (arith, f.2.bits_written, both.bits_written) in
      (
        (f.0).buffer,
        ground
            (arith, c.has_checksum, c.many_types, t.1, d.1, f.1, written, (both.writing).no_error),
        record {
          bytes = f.2.bytes;
          same_length = f.2.same.length_buffer ∙ both.same.length_buffer ∙ same_length;
          words = (f.0).word_index;
          covers = omega (arith, f.2.covers, both.bits_written);
          in_buffer =
              omega (arith, f.2.in_buffer, (both.writing).view.room, f.2.same.length_buffer);
          stored = f.2.stored ∙ omega (arith, ap (λ (n : ℕ). 2 ^ n * content) at);
        },
      )

  type_lt : gap (pos 0) (pos type) < 2 ^ tb
  type_lt = omega (arith, c.known_type, type_IsWidth.enough)

  body_lt : content < 2 ^ (tb + width p)
  body_lt = join-lt tb (width p) (gap (pos 0) (pos type)) body type_lt (blank.2).code_lt

  -- The type and the body are read back.
  body_read :
      (s : ReadStream) (rest : ℕ)
      → Reading s rest
      → (s.reader).bits_read ≡ k + 32
      → (s.reader).num_bits ≡ 8 * bytes
      → rest % 2 ^ (tb + width p) ≡ content
      → read_body write_header read_header factory junk none s
        ≡ some (record { packet = some p; error = ProtocolError.none; header = none })
  unfolding read_body create_packet
  body_read s rest w at size_eq field =
      let parts = field_parts rest (gap (pos 0) (pos type)) body tb (width p) type_lt field in
      let t =
        read_integer-Readed (pos 0) (pos top) (pos type) types (omega arith)
          (omega (arith, c.known_type)) c.type_width type_IsWidth s (pos 0) w
          (omega (arith, at, size_eq)) parts.0 in
      let d =
        (blank.2).reads t.0 (rest / 2 ^ tb) t.2.reading
          (omega (arith, at, size_eq, t.2.bits_read, t.2.num_bits)) parts.1 in
      ground (arith, c.many_types, t.1, blank.1, d.1, (d.2.reading).no_error)

  -- A buffer whose checksum was stored holds the packet.
  pub Checked-Readable :
      (mem mem' : List ℕ)
      → Filled info total content buffer mem
      → Checked info bytes mem mem'
      → Readable info bytes (tb + width p) content mem'
  Checked-Readable mem mem' filled ch =
      let at : 8 * (info.prefix_bytes + 4) ≡ k + 32 = omega arith in
      let rest_eq : val mem' / 2 ^ (k + 32) ≡ val mem / 2 ^ (k + 32) =
        ap (λ (t : ℕ). val mem' / 2 ^ t) (sym at) ∙ ch.above ∙ ap (λ (t : ℕ). val mem / 2 ^ t) at in
      record {
        crc = ch.crc;
        expected = ch.expected;
        stored = ch.stored;
        is_bytes = ch.is_bytes;
        room = omega (arith, filled.covers, filled.in_buffer, ch.same_length);
        field =
            ap (λ (t : ℕ). t % 2 ^ (tb + width p)) rest_eq
            ∙ middle_field (val mem) (k + 32) (tb + width p) (32 * filled.words) content
                (omega (arith, filled.covers)) body_lt filled.stored;
      }

  -- A buffer that holds the packet is read.
  pub Readable-read :
      (mem : List ℕ)
      → Readable info bytes (tb + width p) content mem
      → read_packet write_header read_header info factory junk mem bytes none
        ≡ some (record { packet = some p; error = ProtocolError.none; header = none })
  unfolding read_packet Read.opened BitReader.opened
  Readable-read mem q =
      let s0 : ReadStream = started mem bytes in
      let w0 : Reading s0 (val mem) = started-Reading mem bytes q.is_bytes q.room in
      let start = init-started mem bytes (omega (arith, c.room, c.int_size)) in
      let a = read_prefix-Readed info.prefix_bytes s0 w0 (omega arith) in
      let b =
        read_bits-Readed a.0 0 32 a.2.reading (omega arith) (omega arith)
          (omega (arith, a.2.bits_read, a.2.num_bits)) in
      let field : val mem / 2 ^ k / 2 ^ 32 % 2 ^ (tb + width p) ≡ content =
        ap (λ (t : ℕ). t % 2 ^ (tb + width p)) (sym (div-two-pow-add (val mem) k 32)) ∙ q.field in
      let inner =
        body_read b.0 _ b.2.reading (omega (arith, a.2.bits_read, b.2.bits_read))
          (omega (arith, a.2.num_bits, b.2.num_bits)) field in
      ground (arith, c.has_checksum, c.protocol, start, a.1, b.1, q.expected, q.stored, inner)

  pub write_packet-Filled :
      (mem : List ℕ) × (write_packet write_header read_header info factory p buffer size none
        ≡ (write_checksum info bytes mem >>= λ b. some (record { bytes = bytes; buffer = b })))
      × Filled info total content buffer mem
  unfolding write_packet Write.init
  write_packet-Filled =
      let i = Flush.init-Refines buffer size c.bytes c.words c.allocated c.int_size in
      let s0 : WriteStream = record { error = ProtocolError.none; writer = i.0 } in
      let w0 : Writing s0 0 = record { no_error = refl; view = i.2 } in
      let h = head_written s0 w0 i.3 i.4 in
      let r =
        body_written h.1 h.4 h.5 (omega (arith, h.6.num_bits, i.4)) (h.6.length_buffer ∙ i.5) in
      (r.0, ground (arith, c.has_checksum, c.protocol, c.room, i.1, h.2, h.3, r.1), r.2)

  -- WritePacket succeeds, and leaves a buffer that holds the packet.
  pub write_packet-Readable :
      (mem : List ℕ) × (write_packet write_header read_header info factory p buffer size none
        ≡ some (record { bytes = bytes; buffer = mem }))
      × (length mem ≡ length buffer)
      × Readable info bytes (tb + width p) content mem
  write_packet-Readable =
      let f = write_packet-Filled in
      let zero_field : val f.0 / 2 ^ k % 2 ^ 32 ≡ 0 =
        zeros_below (val f.0) k 32 (32 * f.2.words) content (omega (arith, f.2.covers))
          f.2.stored in
      let ch =
        write_checksum-Checked info bytes f.0 f.2.bytes (omega arith)
          (omega (arith, f.2.covers, f.2.in_buffer)) (omega (arith, c.room, c.int_size))
          zero_field in
      (
        ch.0,
        ground (arith, f.1, ch.1),
        ch.2.same_length ∙ f.2.same_length,
        Checked-Readable f.0 ch.0 f.2 ch.2,
      )

  pub read_packet-write_packet :
      (w : Written) × (write_packet write_header read_header info factory p buffer size none
        ≡ some w)
      × (w.bytes ≡ packet_size info.prefix_bytes c.type_bits p)
      × (length w.buffer ≡ length buffer)
      × (read_packet write_header read_header info factory junk w.buffer w.bytes none
          ≡ some (record { packet = some p; error = ProtocolError.none; header = none }))
  read_packet-write_packet =
      let w = write_packet-Readable in
      (record { bytes = bytes; buffer = w.0 }, w.1, refl, w.2, Readable-read w.0 w.3)
