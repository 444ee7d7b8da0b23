-- ===== src/Tinylibc/Tests.antt =====
-- The small C library on concrete inputs.
use rflpc.Base.{ℕ, ◌-◌, ◌%◌, ◌^◌, ◌≡◌, inl, inr, List, [], ◌∷◌, some, leb, if◌then◌else◌, arith}
use rflpc.Base.Memory.{Memory}
use rflpc.Tinylibc.Memcpy.{memcpy}
use rflpc.Tinylibc.Memcpy.Step.{copied}
use rflpc.Tinylibc.Memcpy.Copies.{memcpy_copies}
use rflpc.Tinylibc.Printf.{int_number, printf}
use rflpc.Tinylibc.Printf.Decimal.{IsDecimal, int_number-IsDecimal}
use rflpc.Tinylibc.Printf.Output.{output, printf_signed}

abbrev ramp : Memory
ramp a = a % 256

abbrev no_text : ℕ → List ℕ
no_text a = []

abbrev hello : List ℕ
hello = b'h' ∷ b'i' ∷ []

memcpy_copies_example : memcpy 1002 400 7 ramp 1005 ≡ copied ramp 1002 400 7 1005
memcpy_copies_example =
    memcpy_copies 1002 400 7 ramp (omega arith) (inr (omega arith)) (inl (omega arith)) 1005

int_number-IsDecimal_example : (cs : List ℕ) × (int_number 1203 ≡ some cs) × IsDecimal 1203 cs
int_number-IsDecimal_example = int_number-IsDecimal 1203 (omega arith)

abbrev shown : List ℕ
shown = b'h' ∷ b'i' ∷ b'-' ∷ b'7' ∷ []

printf_signed_example :
    (cs : List ℕ) × IsDecimal
      (if leb (2 ^ 31) 4294967254 then 2 ^ 32 - 4294967254 else 4294967254)
      cs
    × (output (printf no_text (b'%' ∷ b'd' ∷ []) (4294967254 ∷ []))
        ≡ some (if leb (2 ^ 31) 4294967254 then b'-' ∷ cs else cs))
printf_signed_example = printf_signed no_text 4294967254 (omega arith)
