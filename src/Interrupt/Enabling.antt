-- ===== src/Interrupt/Enabling.antt =====
-- Which handler serves an interrupt, and which interrupts are enabled.
use rflpc.Base.{
  ℕ, zero, suc, ◌+◌, ◌^◌, ◌<◌, ◌==◌, ◌&&◌, ltb, leb, if◌then◌else◌, true, bit_or, ◌≡◌, refl, ap,
  ◌∙◌, Bool-cases, inl, inr, arith,
}
use rflpc.Base.Bits.{bit_at, bit_at-lt, bit_at-bit_and, bit_at-bit_or, bit_at-complement, bit_or-lt}
use rflpc.Base.Word.{shl, shr, not32, bit_at-shl_one, shl_one-lt}
use rflpc.Interrupt.{
  Interrupts, Irq, irq_init, copy_vectors, irq_set_handler, vector_of, irq_global_enable,
  irq_global_disable, enable_irq, disable_irq, write_iser, write_icer,
}

copy_vectors_lem :
    (n k j : ℕ) (i : Interrupts)
    → (copy_vectors n k i).ram_interrupts j
      ≡ (if leb k j && ltb j (k + n) then i.rom_interrupts j else i.ram_interrupts j)
unfolding copy_vectors
copy_vectors_lem zero k j i = ground arith
copy_vectors_lem (suc n) k j i =
    copy_vectors_lem n (k + 1) j _ ∙ ground (arith, ap i.rom_interrupts)

-- After rflpc_irq_init the table that the processor uses has the handlers of the ROM, with interrupts enabled, and
-- rflpc_irq_set_handler replaces the handler of its interrupt only. This is for the interrupts whose vector is among
-- those of the table.
pub irq_set_handler-serves :
    (n table handler : ℕ) (irq other : Irq) (i : Interrupts)
    → vector_of other < n
    → let i' = irq_set_handler irq handler (irq_init n table i) in
      (i'.ram_interrupts (vector_of other) ≡ (
        if vector_of other == vector_of irq then handler else i.rom_interrupts (vector_of other)))
      × (i'.vtor ≡ table)
      × (i'.global ≡ true)
unfolding irq_set_handler irq_init irq_global_enable irq_global_disable
irq_set_handler-serves n table handler irq other i h =
    let copied = copy_vectors_lem n 0 (vector_of other) i in
    let inside : (leb 0 (vector_of other) && ltb (vector_of other) (0 + n)) ≡ true = ground arith in
    (
      ap (λ r. if vector_of other == vector_of irq then handler else r) (copied ∙ rw inside refl),
      refl,
      refl,
    )

word_of_small : (irq : ℕ) → irq < 32 → shr irq 5 ≡ 0
word_of_small irq h = omega arith

-- rflpc_irq_enable of an interrupt below 32 enables it and changes no other.
pub enable_irq_bits :
    (irq w k : ℕ) (i : Interrupts)
    → irq < 32
    → bit_at ((enable_irq irq i).enabled w) k
      ≡ (if w == 0 && k == irq then 1 else bit_at (i.enabled w) k)
unfolding enable_irq write_iser
enable_irq_bits irq w k i h = rw (word_of_small irq h) (elim (Bool-cases (w == 0)) [
  | inl zeroth ↦
      let at_zero : w ≡ 0 = ground arith in
      rw at_zero (
        ground (
          arith,
          bit_at-bit_or (i.enabled 0) (bit_or (i.enabled 0) (shl 1 irq)) k,
          bit_at-bit_or (i.enabled 0) (shl 1 irq) k,
          bit_at-shl_one irq k,
          bit_at-lt (i.enabled 0) k,
        ))
  | inr other ↦ rw other refl
])

-- rflpc_irq_disable of an interrupt below 32 disables every interrupt of the first word, since it writes back the
-- enable bits that it reads.
pub disable_irq_all :
    (irq k : ℕ) (i : Interrupts)
    → irq < 32
    → k < 32
    → i.enabled 0 < 2 ^ 32
    → bit_at ((disable_irq irq i).enabled 0) k ≡ 0
unfolding disable_irq write_icer
disable_irq_all irq k i h hk small =
    let written = bit_or (i.enabled 0) (shl 1 irq) in
    rw (word_of_small irq h) (
      ground (
        arith,
        bit_at-bit_and (i.enabled 0) (not32 written) k,
        bit_at-complement 32 written k
            (bit_or-lt 32 (i.enabled 0) (shl 1 irq) small (shl_one-lt irq h)) hk,
        bit_at-bit_or (i.enabled 0) (shl 1 irq) k,
        bit_at-lt (i.enabled 0) k,
      ))
