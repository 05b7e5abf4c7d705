-- ===== src/Network/Returns.antt =====
-- Network.cpp: ReadPacket on datagrams of any content.
use rudp_network.Prelude.{
  ℕ, ◌+◌, ◌-◌, ◌*◌, ◌/◌, ◌%◌, ◌^◌, ◌≤◌, ◌<◌, ◌≡◌, ◌⊎◌, inl, inr, refl, arith, List, Option, none,
  some, length, true, false, Bool-cases, Option-cases, ltb, ◌==◌, take, drop, lt→ltb,
}
use rudp_network.Prelude.Int.{ℤ, pos, negsuc, ◌≤ℤ◌}
use rudp_network.Memory.{val, IsBytes, bytes_of, read_at}
use rudp_network.BitReader
use rudp_network.Stream.Error.{ProtocolError}
use rudp_network.Stream.Write.{WriteStream}
use rudp_network.Stream.Read
use rudp_network.Stream.Start.{started, init-started, started-Reading}
use rudp_network.Stream.Read.{ReadStream}
use rudp_network.Stream.Advance.{Reading, IsRange, read_bits-Readed}
use rudp_network.Stream.Returns.{serialize_integer-Outcome}
use rudp_network.Serialize.{Serializer}
use rudp_network.Serialize.Returns.{Outcome-Reading}
use rudp_network.Packet.{Packet, PacketInfo}
use rudp_network.Packet.Factory.{PacketFactory, Junk, new_packet, create_packet}
use rudp_network.Packet.Returns.{serialize-Returns}
use rudp_network.Util.Crc.{calculate_crc32}
use rudp_network.Network.{
  protocol_crc, ReadResult, is_error, expected_checksum, read_new, read_body, read_packet,
}
use rudp_network.Network.Prefix.{read_prefix-Readed}

-- Within the buffer, the expected checksum is defined.
expected_checksum_total :
    (info : PacketInfo) (size : ℕ) (buffer : List ℕ)
    → info.prefix_bytes + 4 ≤ size
    → size ≤ length buffer
    → size < 2 ^ 63
    → (crc : ℕ) × (expected_checksum info size buffer ≡ some crc)
unfolding expected_checksum read_at
expected_checksum_total info size buffer enough within int =
    let packet_data : List ℕ =
      take (size - 4 - info.prefix_bytes) (drop (info.prefix_bytes + 4) buffer) in
    let count : (size + 2 ^ 64 - 4 - info.prefix_bytes) % 2 ^ 64 ≡ size - 4 - info.prefix_bytes =
      omega arith in
    (
      calculate_crc32 packet_data (calculate_crc32 (bytes_of 4 0) (protocol_crc info.protocol_id)),
      rw count (ground (arith, enough, within)),
    )

-- An integer that is not below 0.
positive : (z : ℤ) → pos 0 ≤ℤ z → (n : ℕ) × (z ≡ pos n)
positive (pos n) h = (n, refl)
positive (negsuc n) h = absurd (omega arith)

-- What ReadPacket answers: a packet and no error, or null and an error.
abbrev pub IsAnswer : {H : Type 0} → ReadResult H → Type 0
IsAnswer r =
    ((r.packet ≡ none) × (is_error r.error ≡ true))
    ⊎ ((p : Packet) × (r.packet ≡ some p) × (r.error ≡ ProtocolError.none))

create_packet_pos : (junk : Junk) (n : ℕ) → create_packet junk (pos n) ≡ some (new_packet junk n)
unfolding create_packet
create_packet_pos junk n = refl

module _ {H : Type 0} (write_header : Serializer WriteStream H)
    (read_header : Serializer ReadStream H) (junk : Junk) where
  abbrev Answers : Option (ReadResult H) → Type 0
  Answers m = (r : ReadResult H) × (m ≡ some r) × IsAnswer r

  -- Reading a packet of a type that is not negative returns.
  read_new_total :
      (n : ℕ) (s : ReadStream) (rest : ℕ)
      → Reading s rest
      → Answers (read_new write_header read_header junk (pos n) none s)
  unfolding read_new is_error
  read_new_total n s rest v =
      let made = create_packet_pos junk n in
      elim (Option-cases (new_packet junk n)) [
        | inl absent ↦ (
          record { packet = none; error = ProtocolError.create_packet_failed; header = none },
          rw (made, absent) refl,
          inl (refl, refl),
        )
        | inr (before, created) ↦
            let o = serialize-Returns s rest v before in
            elim (Bool-cases o.ok) [
              | inl read ↦
                  let good : (o.stream).error ≡ ProtocolError.none =
                    (Outcome-Reading o read).no_error in
                  (
                    record { packet = some o.value; error = ProtocolError.none; header = none },
                    rw (made, created, o.returns, read, good) refl,
                    inr (o.value, refl, refl),
                  )
              | inr failed ↦ (
                record {
                  packet = none;
                  error = ProtocolError.serialize_packet_failed;
                  header = none;
                },
                rw (made, created, o.returns, failed) refl,
                inl (refl, refl),
              )
            ]
      ]

  read_body_total :
      (factory : PacketFactory) (s : ReadStream) (rest : ℕ)
      → Reading s rest
      → 1 < factory.num_packet_types
      → factory.num_packet_types < 2 ^ 31
      → Answers (read_body write_header read_header factory junk none s)
  unfolding read_body
  read_body_total factory s rest v many int =
      let n : ℕ = factory.num_packet_types in
      let types : IsRange (pos 0) (pos (n - 1)) = omega arith in
      let t = serialize_integer-Outcome s (pos 0) (pos 0) (pos (n - 1)) v types (omega arith) in
      let o = t.0 in
      let some_types : ltb 0 n ≡ true = lt→ltb _ _ (omega arith) in
      let several : ltb 1 n ≡ true = lt→ltb _ _ many in
      elim (Bool-cases o.ok) [
        | inl read ↦
            let type = positive o.value (t.1 (omega arith)) in
            let r = read_new_total type.0 o.stream o.rest (Outcome-Reading o read) in
            (r.0, rw (some_types, several, o.returns, read, type.1, r.1) refl, r.2)
        | inr failed ↦ (
          record { packet = none; error = ProtocolError.invalid_packet_type; header = none },
          rw (some_types, several, o.returns, failed) refl,
          inl (refl, refl),
        )
      ]

  -- ReadPacket with a checksum, for a protocol id that is not zero and without a header, on any
  -- datagram of bytes, below 2^27, that holds the prefix and the checksum and whose last word is
  -- within the buffer, for a factory with several types, below 2^31: it returns, and gives either
  -- a packet and no error, or null and an error code.
  pub read_packet_total :
      (info : PacketInfo) (factory : PacketFactory) (buffer : List ℕ) (size : ℕ)
      → info.raw_format ≡ false
      → 0 < info.protocol_id
      → info.prefix_bytes + 4 ≤ size
      → (size + 3) / 4 * 4 ≤ length buffer
      → size < 2 ^ 27
      → IsBytes buffer
      → 1 < factory.num_packet_types
      → factory.num_packet_types < 2 ^ 31
      → (r : ReadResult H) × (read_packet write_header read_header info factory junk buffer size
            none
          ≡ some r)
        × IsAnswer r
  unfolding read_packet Read.opened BitReader.opened is_error
  read_packet_total info factory buffer size checksummed id enough room small b many types =
      let p =
        read_prefix-Readed info.prefix_bytes (started buffer size)
          (started-Reading buffer size b room) (omega arith) in
      let start = init-started buffer size (omega (arith, small)) in
      let r =
        read_bits-Readed p.0 0 32 p.2.reading (omega arith) (omega arith)
          (omega (arith, p.2.bits_read, p.2.num_bits)) in
      let crc =
        expected_checksum_total info size buffer enough (omega arith) (omega (arith, small)) in
      let stored : ℕ = val buffer / 2 ^ (8 * info.prefix_bytes) % 2 ^ 32 in
      let sized : ltb 0 size ≡ true = lt→ltb _ _ (omega arith) in
      let named : ltb 0 info.protocol_id ≡ true = lt→ltb _ _ id in
      elim (Bool-cases (crc.0 == stored)) [
        | inl same ↦
            let body = read_body_total factory r.0 _ r.2.reading many types in
            (
              body.0,
              rw (sized, named, start, p.1, checksummed, r.1, crc.1, same, body.1) refl,
              body.2,
            )
        | inr differs ↦ (
          record { packet = none; error = ProtocolError.crc32_mismatch; header = none },
          rw (sized, named, start, p.1, checksummed, r.1, crc.1, differs) refl,
          inl (refl, refl),
        )
      ]
