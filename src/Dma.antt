-- ===== src/Dma.antt =====
-- rflpc17xx/drivers/dma.c: the channels of the general purpose DMA controller. A register that may only be written
-- shows an unknown value when it is read, an argument here.
pub mod Transfer
mod Tests
use rflpc.Base.{ℕ, ◌+◌, ◌-◌, ◌*◌, ◌%◌, ◌^◌, ◌==◌, if◌then◌else◌, Bool, ltb, not, bit_and, bit_or}
use rflpc.Base.Word.{shl, not32, set_bit}

pub record Channel : Type 0 where
  pub src_addr : ℕ
  pub dest_addr : ℕ
  pub lli : ℕ
  pub control : ℕ
  pub config : ℕ

-- The terminal count and error requests are those that the channels have pending.
pub record Dma : Type 0 where
  pub pconp : ℕ
  pub dma_config : ℕ
  pub enabled : ℕ
  pub tc_pending : ℕ
  pub err_pending : ℕ
  pub channels : ℕ → Channel

-- `rflpc_dma_get_chan`: whether there is such a channel. The functions that give a register of it test the same.
unfoldable pub get_chan : ℕ → Bool
get_chan channel = ltb channel 8

unfoldable pub on_chan : ℕ → (Channel → Channel) → Dma → Dma
on_chan channel f d = record d {
  channels = λ k. if k == channel then f (d.channels k) else d.channels k;
}

-- A request that is written as one is no longer pending.
unfoldable pub clear_tc : ℕ → Dma → Dma
clear_tc v d = record d { tc_pending = bit_and d.tc_pending (not32 v) }

unfoldable pub clear_err : ℕ → Dma → Dma
clear_err v d = record d { err_pending = bit_and d.err_pending (not32 v) }

-- `rflpc_dma_set_channel_control` and `rflpc_dma_set_channel_lli`: a size has 16 bits.
unfoldable pub set_channel_control : ℕ → ℕ → Channel → Channel
set_channel_control transfert_size burst_size c = record c {
  control = bit_or (bit_or (bit_and (transfert_size % 2 ^ 16) 0xfff) (shl 1 26)) (shl 1 27);
}

unfoldable pub set_channel_lli : ℕ → ℕ → Dma → Dma
unfolding get_chan on_chan
set_channel_lli channel lli d =
    if get_chan channel then on_chan channel (λ c. record c { lli = lli }) d else d

-- `rflpc_dma_set_channel_config`: a channel whose enable bit is written is among those enabled.
unfoldable pub set_channel_config : ℕ → ℕ → Dma → Dma
unfolding on_chan
set_channel_config channel enable d =
    let d' = on_chan channel (λ c. record c { config = bit_and enable 1 }) d in
    if bit_and enable 1 == 0 then d' else record d' { enabled = set_bit d'.enabled channel }

-- `rflpc_dma_init`
unfoldable pub dma_init : Dma → Dma
dma_init d = record d { pconp = set_bit d.pconp 29; dma_config = 1 }

-- `rflpc_dma_channel_ready`
unfoldable pub channel_ready : ℕ → Dma → Bool
channel_ready channel d = bit_and d.enabled (shl 1 channel) == 0

-- `rflpc_dma_start`: what it returns, and the controller afterwards.
unfoldable pub dma_start : ℕ → ℕ → ℕ → ℕ → ℕ → ℕ → Dma → ℕ × Dma
unfolding channel_ready get_chan on_chan clear_tc clear_err set_channel_lli set_channel_control
    set_channel_config
dma_start shown_tc shown_err channel dest src size d =
    if not (channel_ready channel d)
    then (0, d)
    else if not (get_chan channel)
    then (0, d)
    else let d₁ = on_chan channel (λ c. record c { src_addr = src; dest_addr = dest }) d in
      let d₂ = clear_err (set_bit shown_err channel) (clear_tc (set_bit shown_tc channel) d₁) in
      let d₃ = set_channel_lli channel 0 d₂ in
      (1, set_channel_config channel 1 (on_chan channel (set_channel_control size 1) d₃))
