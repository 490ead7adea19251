-- ===== src/Rpc/IdSpace.antt =====
-- core/src/utils/id_space.rs and increment_u32_id.rs. The process-global counter is a value that
-- the operations take and give back.
pub mod Apart
use Prim.Native.Nat.{bit_and, bit_or}
use rust_muxio.Prelude.{ℕ, ◌+◌, ◌%◌, ◌^◌}

pub data IdSpace : Type 0 where
  client server : IdSpace

abbrev pub mask : ℕ
mask = 0x8000_0000

unfoldable pub marker : IdSpace → ℕ
marker client = 0
marker server = mask

-- `(id & !Self::MASK) | self.marker()`; on 32 bits `!MASK` is 0x7fff_ffff.
unfoldable pub place : IdSpace → ℕ → ℕ
place space id = bit_or (bit_and id 0x7fff_ffff) (marker space)

-- `GLOBAL_ID_COUNTER.fetch_add(1) as u32` on an `AtomicU64`: the number, and the counter after it.
unfoldable pub increment_u32_id : ℕ → ℕ × ℕ
increment_u32_id counter = (counter % 2 ^ 32, (counter + 1) % 2 ^ 64)
