-- ===== src/Endian/Tests.antt =====
-- The conversions of endian.c at concrete words.
use hardware_bitcoin_wallet.Base.{◌≡◌, arith, reverse, val, IsBytes}
use hardware_bitcoin_wallet.Endian.{
  write_u32_big_endian, write_u32_little_endian, read_u32_big_endian, read_u32_little_endian,
  swap_endian,
}
use hardware_bitcoin_wallet.Endian.Laws.{write_u32-val, read_u32-write_u32, swap_endian_twice}

write_u32-val_example :
    (val (write_u32_little_endian 0xdeadbeef) ≡ 0xdeadbeef)
    × (write_u32_big_endian 0xdeadbeef ≡ reverse (write_u32_little_endian 0xdeadbeef))
    × IsBytes (write_u32_big_endian 0xdeadbeef)
    × IsBytes (write_u32_little_endian 0xdeadbeef)
write_u32-val_example = write_u32-val 0xdeadbeef (omega arith)

read_u32-write_u32_example :
    (read_u32_little_endian (write_u32_little_endian 0xdeadbeef) ≡ 0xdeadbeef)
    × (read_u32_big_endian (write_u32_big_endian 0xdeadbeef) ≡ 0xdeadbeef)
read_u32-write_u32_example = read_u32-write_u32 0xdeadbeef (omega arith)

swap_endian_twice_example :
    (swap_endian 0xdeadbeef ≡ val (write_u32_big_endian 0xdeadbeef))
    × (swap_endian (swap_endian 0xdeadbeef) ≡ 0xdeadbeef)
swap_endian_twice_example = swap_endian_twice 0xdeadbeef (omega arith)
