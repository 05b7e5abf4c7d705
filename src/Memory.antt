-- ===== src/Memory.antt =====
-- The byte buffers that the C++ code casts to `uint32_t *`: a list of bytes, with copies and
-- aligned 32-bit accesses that fault outside it. The build is little endian.
mod Value
pub mod Access
pub use Value.*
use rudp_network.Prelude.{
  ℕ, zero, suc, ◌+◌, ◌*◌, ◌%◌, ◌/◌, ◌++◌, List, [], ◌∷◌, Option, none, some, length, take, drop,
  leb, if◌then◌else◌, ◌>>=◌,
}

-- The `count` bytes from `offset` on.
unfoldable pub read_at : ℕ → ℕ → List ℕ → Option (List ℕ)
read_at offset count mem =
    if leb (offset + count) (length mem) then some (take count (drop offset mem)) else none

-- `memcpy` of `src` to `offset`.
unfoldable pub write_at : ℕ → List ℕ → List ℕ → Option (List ℕ)
write_at offset src mem =
    if leb (offset + length src) (length mem)
    then some (take offset mem ++ (src ++ drop (offset + length src) mem))
    else none

-- `data[index]` of a `const uint32_t *`.
unfoldable pub load32 : ℕ → List ℕ → Option ℕ
unfolding read_at
load32 index mem = do bytes ← read_at (4 * index) 4 mem; some (val bytes)

-- `data[index] = w` through a `uint32_t *`.
unfoldable pub store32 : ℕ → ℕ → List ℕ → Option (List ℕ)
unfolding write_at
store32 index w mem = write_at (4 * index) (bytes_of 4 w) mem
