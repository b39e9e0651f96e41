-- ===== src/File/Ring/Valid.antt =====
-- When a ring buffer is well formed, and the bytes that it holds.
use maturin.Prelude.{
  ℕ, ◌+◌, ◌-◌, ◌*◌, ◌≤◌, ◌<◌, ◌≡◌, ◌⊎◌, inl, ltb, if◌then◌else◌, usize_mod, length, List, refl,
  arith,
}
use maturin.File.VirtFile.{page_size, Frame}
use maturin.File.VirtFile.Bytes
use maturin.File.VirtFile.Bytes.{Full, byte_in, range_of}
use maturin.File.Ring.{RingBuffer, new}

-- The place in the file of the position `q`, which runs past the end of the queue's space.
unfoldable pub slot : ℕ → ℕ → ℕ
slot limit q = if ltb q limit then q else q - limit

-- The bytes of the queue, the oldest first.
unfoldable pub content : RingBuffer → List ℕ
content r = range_of (λ q. byte_in r.data'.frames (slot r.size_limit q)) r.head r.len

-- The file is valid, the positions stand in the queue's space, the bytes between them are in the
-- file, and with the supply there are frames for a full queue.
pub record IsValid (r : RingBuffer) (supply : List Frame) : Type 0 where
  pub file : Bytes.IsValid r.data'
  pub fresh : Full supply
  pub small : r.size_limit < usize_mod
  pub len_le : r.len ≤ r.size_limit
  pub head_le : r.head ≤ r.size_limit
  pub end_le : r.end ≤ r.size_limit
  pub held :
      ((r.head + r.len ≡ r.end) × (r.end ≤ r.data'.size))
      ⊎ ((r.head + r.len ≡ r.end + r.size_limit) × (r.size_limit ≤ r.data'.size))
  pub room : r.size_limit ≤ page_size * (length r.data'.frames + length supply)

pub new-IsValid :
    (limit : ℕ) (supply : List Frame)
    → Full supply
    → limit < usize_mod
    → limit ≤ page_size * length supply
    → IsValid (new limit) supply
unfolding new maturin.File.VirtFile.new
new-IsValid limit supply s h k = record {
  file = record { full = tt; fits = omega arith; small = omega arith };
  fresh = s;
  small = h;
  len_le = omega arith;
  head_le = omega arith;
  end_le = omega arith;
  held = inl (refl, omega arith);
  room = omega (arith, k);
}
