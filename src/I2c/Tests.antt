-- ===== src/I2c/Tests.antt =====
-- The I2C driver on concrete buses.
use rflpc.Base.{◌%◌, ◌≡◌, refl, [], ◌∷◌, some, replicate, arith}
use rflpc.Base.Memory.{Memory, store_all}
use rflpc.I2c.{master}
use rflpc.I2c.Write.{Sender, rounds, write}
use rflpc.I2c.Write.Master.{IsBytes, code, log_of, sent, write_delivers}
use rflpc.I2c.Write.Bounds.{Keeps, rounds-Keeps}
use rflpc.I2c.Write.Slave.{write_repeats}
use rflpc.I2c.Read.{Driver, read}
use rflpc.I2c.Read.Master.{result, read_receives}

abbrev ramp : Memory
ramp a = a % 256

ramp-IsBytes : IsBytes ramp
ramp-IsBytes a = omega arith

abbrev idle : Driver
idle = record { mode = master; slave_data = 0; slave_size = 0 }

abbrev three_bytes : Sender
three_bytes = record { ptr = 100; nbytes = 3; realnbytes = 0 }

write_delivers_example :
    let o = write ramp 1 0x42 100 3 1 (0xf8 ∷ 0x08 ∷ 0x18 ∷ replicate 3 0x28) in
    (code o ≡ some 3) × (sent (log_of o) ≡ 0x42 ∷ 100 ∷ 101 ∷ 102 ∷ [])
write_delivers_example =
    write_delivers ramp 1 0x42 100 3 1 ramp-IsBytes (omega arith) (omega arith) (omega arith)

write_repeats_example :
    let o = write ramp 2 0 100 4 0 (0xa8 ∷ 0xb8 ∷ 0xb8 ∷ 0xc0 ∷ []) in
    (code o ≡ some 3) × (sent (log_of o) ≡ 100 ∷ 101 ∷ 101 ∷ [])
write_repeats_example =
    write_repeats ramp 2 0 100 4 0 2 ramp-IsBytes (omega arith) (omega arith) (omega arith)

rounds-Keeps_example :
    Keeps ramp 1 0x42 1 100 3
      (omega arith)
      (rounds ramp 1 0x42 1 (0x08 ∷ 0x18 ∷ 0x38 ∷ []) three_bytes)
rounds-Keeps_example =
    rounds-Keeps ramp 1 0x42 1 100 3 (omega arith) (0x08 ∷ 0x18 ∷ 0x38 ∷ []) three_bytes
      (omega arith, (omega arith, (omega arith, tt))) (record { split = refl; place = refl })

read_receives_example :
    result (
      read idle ramp 1 0x43 100 3 1 []
        ((0xf8, 0) ∷ (0x08, 0) ∷ (0x40, 0) ∷ (0x50, 7) ∷ (0x50, 8) ∷ (0x58, 9) ∷ []))
    ≡ some (3, store_all ramp 100 (7 ∷ 8 ∷ 9 ∷ []))
read_receives_example =
    read_receives idle ramp 1 0x43 100 1 [] 0 0 0 (7 ∷ 8 ∷ []) 9 (omega arith, (omega arith, tt))
      (omega arith) (omega arith)
