-- ===== src/Dma/Tests.antt =====
-- A controller with all its channels free.
use rflpc.Base.{ℕ, some, inl, refl, ◌≡◌, arith}
use rflpc.Base.Memory.{Memory}
use rflpc.Tinylibc.Memcpy.Step.{copied}
use rflpc.Dma.{Dma, dma_start, dma_init}
use rflpc.Dma.Transfer.{transfer, dma_start-copies}

abbrev all_free : Dma
unfolding dma_init
all_free = dma_init (record {
  pconp = 0;
  dma_config = 0;
  enabled = 0;
  tc_pending = 3;
  err_pending = 0;
  channels = λ k. record { src_addr = 0; dest_addr = 0; lli = 0; control = 0; config = 0 };
})

-- A buffer of 5000 bytes: 904 of them are copied.
dma_start-copies_example :
    ((dma_start 0 0 2 100 20000 5000 all_free).0 ≡ 1)
    × (m' : Memory) × (transfer (dma_start 0 0 2 100 20000 5000 all_free).1 2 (λ a. a) ≡ some m')
    × ((a : ℕ) → m' a ≡ copied (λ b. b) 100 20000 904 a)
unfolding all_free
dma_start-copies_example =
    dma_start-copies 0 0 2 100 20000 5000 all_free (λ a. a) (omega arith) refl refl
      (inl (omega arith))
