-- ===== src/Dns/Name/Circle.antt =====
-- read_name of c/dns.c on a compression pointer that leads to itself.
use tracep.Base.{Option, arith, get_elem?, refl, some, suc, zero, ℕ, ◌%◌, ◌*◌, ◌+◌, ◌^◌, ◌≡◌, ◌≤◌}
use tracep.Dns.Name.{first_jump, hop, jump, read_loop, top_bits}
use tracep.Memory.{Bytes, ok, spin, ◌>>=◌}

module _ (d : Bytes) (len off hi lo : ℕ) where
  -- The two bytes at `off` are a pointer, and it leads to `off`.
  pub record PointsToItself : Type 0 where
    pub inside : off + 2 ≤ len
    pub high : get_elem? d off ≡ some hi
    pub low : get_elem? d (off + 1) ≡ some lo
    pub pointer : top_bits hi ≡ 3
    pub itself : (hi * 256 + lo) % 2 ^ 14 ≡ off

  hop_circle : PointsToItself → hop d len off ≡ ok (jump off)
  unfolding hop
  hop_circle p = ground arith

  pub read_loop_circle :
      PointsToItself
      → (rounds size : ℕ) (orig : Option ℕ) (dst : Option Bytes)
      → read_loop rounds d len size off orig dst ≡ spin
  unfolding read_loop
  read_loop_circle p zero size orig dst = refl
  read_loop_circle p (suc rounds) size orig dst =
      rw (hop_circle p, ◌>>=◌) (read_loop_circle p rounds size (first_jump orig (off + 2)) dst)
