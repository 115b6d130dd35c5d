-- ===== src/Sockstat/Values.antt =====
-- Typed variables that the sender has written are read back (internal/sockstat/sockstat.go).
use spokes_receive_pack.Base.{ℕ, ◌^◌, ◌<◌, ◌++◌, Bytes, codes, ◌≡◌, refl}
use spokes_receive_pack.Go.Strings.{cut_prefix}
use spokes_receive_pack.Go.Strconv.{decimal, parse_uint-decimal}
use spokes_receive_pack.Sockstat.{Environment, prefix, get_uint32, uint32_value}

-- If a variable has the tag uint and the decimal digits of a number of 32 bits, then GetUint32
-- returns that number.
pub get_uint32-uint :
    (env : Environment) (name : Bytes) (n : ℕ)
    → n < 2 ^ 32
    → env (prefix ++ name) ≡ codes "uint:" ++ decimal n
    → get_uint32 env name ≡ n
unfolding get_uint32 uint32_value cut_prefix
get_uint32-uint env name n h e = rw (e, parse_uint-decimal n 32 h) refl
