-- ===== src/Network/Datagram.antt =====
-- Network.cpp: a packet that travels as a datagram. The receiver has the bytes of the packet at the
-- start of its own buffer, and behind them whatever that held before.
use rudp_network.Prelude.{
  ℕ, zero, suc, ◌+◌, ◌-◌, ◌*◌, ◌/◌, ◌%◌, ◌^◌, ◌≤◌, ◌<◌, ◌≡◌, ◌∙◌, refl, sym, ap, arith, List, [],
  ◌∷◌, ◌++◌, none, some, length, take, drop, length-append, length-take,
}
use rudp_network.Memory.{val, IsBytes, read_at, val-take, take-IsBytes, append-IsBytes}
use rudp_network.Stream.Error.{ProtocolError}
use rudp_network.Stream.Write.{WriteStream}
use rudp_network.Stream.Read.{ReadStream}
use rudp_network.Serialize.{Serializer}
use rudp_network.Packet.{Packet, PacketInfo}
use rudp_network.Packet.Factory.{PacketFactory, Junk}
use rudp_network.Network.{expected_checksum, write_packet, read_packet}
use rudp_network.Network.Field.{same_field}
use rudp_network.Network.RoundTrip.{
  CanWrite, packet_size, Readable, write_packet-Readable, Readable-read,
}

-- What a datagram and the old contents behind it have in common with the sender's buffer.
take_of_datagram :
    (c n : ℕ) (xs ys : List ℕ) → c ≤ n → n ≤ length xs → take c (take n xs ++ ys) ≡ take c xs
take_of_datagram zero n xs ys h k = refl
take_of_datagram (suc c) zero xs ys h k = absurd (omega arith)
take_of_datagram (suc c) (suc n) [] ys h k = absurd (omega arith)
take_of_datagram (suc c) (suc n) (x ∷ xs) ys h k =
    ap (λ (l : List ℕ). x ∷ l) (take_of_datagram c n xs ys (omega arith) (omega arith))

read_of_datagram :
    (off c n : ℕ) (xs ys : List ℕ)
    → off + c ≤ n
    → n ≤ length xs
    → take c (drop off (take n xs ++ ys)) ≡ take c (drop off xs)
read_of_datagram zero c n xs ys h k = take_of_datagram c n xs ys (omega arith) k
read_of_datagram (suc off) c zero xs ys h k = absurd (omega arith)
read_of_datagram (suc off) c (suc n) [] ys h k = absurd (omega arith)
read_of_datagram (suc off) c (suc n) (x ∷ xs) ys h k =
    read_of_datagram off c n xs ys (omega arith) (omega arith)

module _ (n : ℕ) (xs ys : List ℕ) (within : n ≤ length xs) where
  length_datagram : length (take n xs ++ ys) ≡ n + length ys
  length_datagram = omega (arith, length-append (take n xs) ys, length-take n xs)

  read_at_datagram : (off c : ℕ) → off + c ≤ n → read_at off c (take n xs ++ ys) ≡ read_at off c xs
  unfolding read_at
  read_at_datagram off c h =
      ground (arith, length_datagram, read_of_datagram off c n xs ys h within, within)

  low_of_datagram :
      IsBytes xs → IsBytes ys → val (take n xs ++ ys) % 2 ^ (8 * n) ≡ val xs % 2 ^ (8 * n)
  low_of_datagram b by =
      sym (
        val-take n (take n xs ++ ys) (append-IsBytes (take n xs) ys (take-IsBytes n xs b) by)
          (omega (arith, length_datagram)))
      ∙ ap val (take_of_datagram n n xs ys (omega arith) within)
      ∙ val-take n xs b within

-- The checksum is over the bytes of the datagram.
expected_datagram :
    (info : PacketInfo) (bytes : ℕ) (mem tail : List ℕ)
    → bytes ≤ length mem
    → bytes < 2 ^ 63
    → info.prefix_bytes + 4 ≤ bytes
    → expected_checksum info bytes (take bytes mem ++ tail) ≡ expected_checksum info bytes mem
unfolding expected_checksum
expected_datagram info bytes mem tail within int holds =
    let p : ℕ = info.prefix_bytes in
    let count : (bytes + 2 ^ 64 - 4 - p) % 2 ^ 64 ≡ bytes - 4 - p = omega arith in
    rw (count, read_at_datagram bytes mem tail within (p + 4) (bytes - 4 - p) (omega arith)) refl

Readable-datagram :
    (info : PacketInfo) (bytes field_width content : ℕ) (mem tail : List ℕ)
    → Readable info bytes field_width content mem
    → bytes ≤ length mem
    → bytes < 2 ^ 63
    → 8 * info.prefix_bytes + 32 + field_width ≤ 8 * bytes
    → IsBytes tail
    → (bytes + 3) / 4 * 4 ≤ bytes + length tail
    → Readable info bytes field_width content (take bytes mem ++ tail)
Readable-datagram info bytes field_width content mem tail q within int holds b room =
    let p : ℕ = info.prefix_bytes in
    let same = low_of_datagram bytes mem tail within q.is_bytes b in
    record {
      crc = q.crc;
      expected = expected_datagram info bytes mem tail within int (omega arith) ∙ q.expected;
      stored = same_field _ _ (8 * p) 32 (8 * bytes) (omega arith) same ∙ q.stored;
      is_bytes = append-IsBytes (take bytes mem) tail (take-IsBytes bytes mem q.is_bytes) b;
      room = omega (arith, length_datagram bytes mem tail within);
      field = same_field _ _ (8 * p + 32) field_width (8 * bytes) (omega arith) same ∙ q.field;
    }

module _ {H : Type 0} (write_header : Serializer WriteStream H)
    (read_header : Serializer ReadStream H) (junk : Junk) {info : PacketInfo}
    {factory : PacketFactory} {p : Packet} {buffer : List ℕ} {size : ℕ}
    (c : CanWrite info factory p buffer size) where
  abbrev n : ℕ
  n = packet_size info.prefix_bytes c.type_bits p

  -- What WritePacket leaves is read behind whatever the receiver's buffer holds.
  pub write_packet-travels :
      (mem : List ℕ) × (write_packet write_header read_header info factory p buffer size none
        ≡ some (record { bytes = n; buffer = mem }))
      × (length mem ≡ length buffer)
      × IsBytes mem
      × ((tail : List ℕ)
          → IsBytes tail
          → (n + 3) / 4 * 4 ≤ n + length tail
          → read_packet write_header read_header info factory junk (take n mem ++ tail) n none
            ≡ some (record { packet = some p; error = ProtocolError.none; header = none }))
  write_packet-travels =
      let w = write_packet-Readable write_header read_header junk c in
      (
        w.0,
        w.1,
        w.2,
        (w.3).is_bytes,
        λ tail b room. Readable-read write_header read_header junk c (take n w.0 ++ tail) (
            Readable-datagram info n _ _ w.0 tail w.3 (omega (arith, c.room, c.allocated, w.2))
              (omega (arith, c.room, c.int_size)) (omega arith) b room),
      )
