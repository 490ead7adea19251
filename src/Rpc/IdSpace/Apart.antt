-- ===== src/Rpc/IdSpace/Apart.antt =====
-- Ids of the two sides of a connection.
use Prim.Native.Nat.{bit_and, bit_or}
use rust_muxio.Prelude.{ℕ, ◌+◌, ◌%◌, ◌^◌, ◌<◌, ◌≡◌, ◌≢◌, sym, ap, ◌∙◌, arith}
use rust_muxio.Prelude.Bits.{bit_and_low, bit_or-pow, bit_or-zero}
use rust_muxio.Rpc.IdSpace.{IdSpace, client, server, place, marker}

-- The lowest 31 bits of an id stay, and the highest tells the space.
place_lem : (space : IdSpace) (id : ℕ) → place space id ≡ id % 2 ^ 31 + marker space
unfolding place marker
place_lem client id = bit_or-zero (bit_and id 0x7fff_ffff) ∙ bit_and_low id ∙ omega arith
place_lem server id =
    ap (λ x. bit_or x (2 ^ 31)) (bit_and_low id) ∙ bit_or-pow 31 (id % 2 ^ 31) (omega arith)

-- Ids that a client and a server make never meet, whatever numbers they start from, and an id fits
-- 32 bits and keeps the lowest 31 bits of its number.
pub place-apart :
    (a b : ℕ) (space : IdSpace)
    → (place client a ≢ place server b)
      × (place space a < 2 ^ 32)
      × (place space a % 2 ^ 31 ≡ a % 2 ^ 31)
unfolding marker
place-apart a b space =
    (λ e. omega (arith, sym (place_lem client a) ∙ e ∙ place_lem server b), fits space, low space)
  where
    fits : (s : IdSpace) → place s a < 2 ^ 32
    fits client = omega (arith, place_lem client a)
    fits server = omega (arith, place_lem server a)

    low : (s : IdSpace) → place s a % 2 ^ 31 ≡ a % 2 ^ 31
    low client = omega (arith, place_lem client a)
    low server = omega (arith, place_lem server a)
