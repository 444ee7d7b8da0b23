-- ===== src/Iap/Tests.antt =====
-- Flash programming with a concrete ROM.
use rflpc.Base.{
  ◌+◌, ◌%◌, ◌==◌, if◌then◌else◌, ltb, leb, ◌&&◌, ◌≡◌, refl, ◌⊎◌, inl, inr, [], ◌∷◌, get_or, arith,
}
use rflpc.Base.Memory.{Memory}
use rflpc.Tinylibc.Memcpy.Step.{copied}
use rflpc.Iap.{
  Machine, ok, minus, Rom, get_sector_from_address, get_address_from_sector, write_to_sector,
  write_buffer, write_buffer_to_sector, prepare_sectors, call, erase_sectors, copy_ram_to_flash,
}
use rflpc.Iap.Manual.{FollowsManual}
use rflpc.Iap.Write.{write_to_sector_stores}
use rflpc.Iap.Spans.{write_buffer_ends, write_buffer_spanning_fails}

abbrev ramp : Memory
ramp a = a % 256

abbrev chip : Machine Unit
chip = record { chip = tt; mem = ramp; system_clock = 100000000 }

-- Erasing sets bytes, copying copies them, and each command succeeds.
abbrev rom : Rom Unit
rom command m =
    let code = get_or command 0 0 in
    let from = get_or command 1 0 in
    let to = get_or command 2 0 in
    if code == 52
    then (
      0 ∷ [],
      record m {
        mem = λ a.
            (if leb (get_address_from_sector from) a && ltb a (get_address_from_sector (to + 1))
              then 0xff
              else m.mem a);
      },
    )
    else if code == 51
    then (0 ∷ [], record m { mem = copied m.mem from to (get_or command 3 0) })
    else (0 ∷ [], m)

rom-FollowsManual : FollowsManual rom 0x10000000
rom-FollowsManual = record {
  prepare_keeps = λ first last m a free. refl;
  erase_blanks = λ first last khz m a h p q. ground arith;
  erase_keeps = λ first last khz m a free h. ground arith;
  copy_copies = λ destination source length khz m a h blank p q. ground arith;
  copy_keeps = λ destination source length khz m a free h. ground arith;
}

write_to_sector_stores_example :
    (write_to_sector rom 0x10001000 0x1010 0x10004000 5 chip).1.mem 0x1012 ≡ 2
unfolding write_to_sector get_sector_from_address write_buffer_to_sector prepare_sectors call
    erase_sectors copy_ram_to_flash
write_to_sector_stores_example =
    write_to_sector_stores rom 0x10000000 rom-FollowsManual 0x10001000 (omega arith) (omega arith)
      (inr (omega arith)) 0x1010 0x10004000 5 chip
      (write_to_sector rom 0x10001000 0x1010 0x10004000 5 chip).1 (omega arith) (omega arith)
      (omega arith) (inr (omega arith)) (inl (omega arith)) refl 0x1012 (inl (omega arith))
      (inl (omega arith))

write_buffer_ends_example :
    ((write_buffer rom 0x10001000 0x1010 0x10004000 5000 chip).0 ≡ ok)
    ⊎ ((write_buffer rom 0x10001000 0x1010 0x10004000 5000 chip).0 ≡ minus 1)
write_buffer_ends_example = write_buffer_ends rom 0x10001000 0x1010 0x10004000 5000 chip

write_buffer_spanning_fails_example :
    (write_buffer rom 0x10001000 0x1ff0 0x10004000 8192 chip).0 ≡ minus 1
unfolding get_address_from_sector get_sector_from_address
write_buffer_spanning_fails_example =
    write_buffer_spanning_fails rom 0x10001000 0x1ff0 0x10004000 8192 chip (omega arith)
      (omega arith)
