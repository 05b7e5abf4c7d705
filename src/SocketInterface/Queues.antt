-- ===== src/SocketInterface/Queues.antt =====
-- svr/library/networking/SocketInterface.cpp: the send queue, its limit and its counters.
use rudp_network.Prelude.{
  ℕ, ◌+◌, ◌≤◌, ◌<◌, ◌≡◌, refl, arith, List, [], ◌∷◌, ◌++◌, some, length, leb, true, false, ◌⊎◌, inl,
  inr, Bool-cases,
}
use rudp_network.Address.{Address, is_valid}
use rudp_network.Packet.{Packet}
use rudp_network.Socket.{is_error}
use rudp_network.SocketInterface.{SocketInterface, PacketEntry, next, send_packet, all_valid}

pub length-snoc : {A : Type 0} (xs : List A) (x : A) → length (xs ++ x ∷ []) ≡ length xs + 1
length-snoc [] x = refl
length-snoc (y ∷ xs) x = ground (arith, length-snoc xs x)

pub all_valid-snoc :
    (es : List PacketEntry) (e : PacketEntry)
    → all_valid es ≡ true
    → is_valid e.address ≡ true
    → all_valid (es ++ e ∷ []) ≡ true
all_valid-snoc [] e h k = ground (arith, k)
all_valid-snoc (x ∷ es) e h k = ground (arith, all_valid-snoc es e, h, k)

-- The queues are within their limits, and every entry has an address that ClearSendQueue and
-- ClearReceiveQueue accept.
pub record IsSound (i : SocketInterface) : Type 0 where
  pub send_bound : length i.send_queue ≤ i.send_queue_size
  pub receive_bound : length i.receive_queue ≤ i.receive_queue_size
  pub send_valid : all_valid i.send_queue ≡ true
  pub receive_valid : all_valid i.receive_queue ≡ true

-- SendPacket to a valid address, in a sound interface whose socket has no error, returns and
-- keeps the interface sound, and either appends the packet and counts it as sent or finds the
-- queue full and counts an overflow only.
pub send_packet-IsSound :
    (address : Address) (packet : Packet) (sequence : ℕ) (i : SocketInterface)
    → IsSound i
    → is_valid address ≡ true
    → is_error i.socket ≡ false
    → (i' : SocketInterface) × (send_packet address packet sequence i ≡ some i')
      × IsSound i'
      × (((length i.send_queue < i.send_queue_size)
            × (i'.send_queue
                ≡ i.send_queue
                  ++ record { sequence = sequence; address = address; packet = packet } ∷ [])
            × (i'.counters ≡ record i.counters { packets_sent = next (i.counters).packets_sent }))
          ⊎ ((length i.send_queue ≡ i.send_queue_size)
              × (i'.send_queue ≡ i.send_queue)
              × (i'.counters ≡ record i.counters {
                send_queue_overflow = next (i.counters).send_queue_overflow;
              })))
unfolding send_packet
send_packet-IsSound address packet sequence i v valid usable =
    elim (Bool-cases (leb i.send_queue_size (length i.send_queue))) [
      | inl full ↦ (
        record i {
          counters = record i.counters {
            send_queue_overflow = next (i.counters).send_queue_overflow;
          };
        },
        rw (valid, usable, full) refl,
        record {
          send_bound = v.send_bound;
          receive_bound = v.receive_bound;
          send_valid = v.send_valid;
          receive_valid = v.receive_valid;
        },
        inr (ground (arith, full, v.send_bound), refl, refl),
      )
      | inr room ↦
          let entry : PacketEntry = record {
            sequence = sequence;
            address = address;
            packet = packet;
          } in
          (
            record i {
              send_queue = i.send_queue ++ entry ∷ [];
              counters = record i.counters { packets_sent = next (i.counters).packets_sent };
            },
            rw (valid, usable, room) refl,
            record {
              send_bound = ground (arith, length-snoc i.send_queue entry, room);
              receive_bound = v.receive_bound;
              send_valid = all_valid-snoc i.send_queue entry v.send_valid valid;
              receive_valid = v.receive_valid;
            },
            inl (ground (arith, room), refl, refl),
          )
    ]
