-- ===== src/Stream/Start.antt =====
-- svr/library/networking/Serialization.h: the constructor of ReadStream.
use rudp_network.Prelude.{
  ℕ, ◌+◌, ◌*◌, ◌/◌, ◌^◌, ◌≤◌, ◌<◌, ◌≡◌, refl, arith, List, some, true, length, ltb, lt→ltb,
}
use rudp_network.Memory.{val, IsBytes}
use rudp_network.BitReader
use rudp_network.BitReader.Refines as ReaderView
use rudp_network.Stream.Read
use rudp_network.Stream.Read.{ReadStream}
use rudp_network.Stream.Advance.{Reading}

abbrev pub started : List ℕ → ℕ → ReadStream
started buffer size = Read.opened (BitReader.opened buffer size)

-- Below 2^28 bytes the count of bits is an int.
pub init-started :
    (buffer : List ℕ) (size : ℕ)
    → size < 2 ^ 28
    → Read.init buffer size ≡ some (started buffer size)
unfolding Read.init BitReader.init
init-started buffer size small =
    let int : ltb (size * 8) (2 ^ 31) ≡ true = lt→ltb _ _ (omega (arith, small)) in rw int refl

pub started-Reading :
    (buffer : List ℕ) (size : ℕ)
    → IsBytes buffer
    → (size + 3) / 4 * 4 ≤ length buffer
    → Reading (started buffer size) (val buffer)
unfolding Read.opened BitReader.opened
started-Reading buffer size b room = record {
  no_error = refl;
  counted = refl;
  view = ReaderView.opened-Refines buffer size b room;
}
