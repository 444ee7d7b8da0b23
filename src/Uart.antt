-- ===== src/Uart.antt =====
-- rflpc17xx/drivers/uart.c: the UARTs 0, 2 and 3. The address of DLL is that of THR and RBR, and bit 7 of LCR chooses.
-- Each load of LSR is an event: whether THR is free, and the bytes that have arrived since the last one; the receive
-- FIFO has sixteen. Where the list of the events ends, the call still waits.
pub mod Ready
mod Tests
use rflpc.Base.{
  ℕ, zero, suc, ◌+◌, ◌-◌, ◌*◌, ◌%◌, ◌^◌, ◌==◌, if◌then◌else◌, not, Bool, true, false, List, [], ◌∷◌,
  ◌++◌, Option, none, some, bit_and, bit_or, take, drop,
}
use rflpc.Base.Integers.{ℤ, pos, negsuc}
use rflpc.Base.Word.{u8, u32, shl, clr_bit, set_bit}
use rflpc.Base.Bits.{bit_at}
use rflpc.Interrupt.{Interrupts, Irq, irq_set_handler, enable_irq}
use rflpc.System.{System, cclk_8, power, set_pin_function}

-- The registers of a UART, the bytes handed to the transmitter, and the receive FIFO.
pub record UartRegs : Type 0 where
  pub lcr : ℕ
  pub dll : ℕ
  pub dlm : ℕ
  pub fdr : ℕ
  pub ier : ℕ
  pub tx : List ℕ
  pub rx : List ℕ

abbrev pub Event : Type 0
Event = Bool × List ℕ

-- The accesses that depend on LCR, and the write to FCR, whose bit 1 clears the receive FIFO.
unfoldable pub write_thr : ℕ → UartRegs → UartRegs
write_thr v r =
    if bit_at r.lcr 7 == 0 then record r { tx = r.tx ++ (v ∷ []) } else record r { dll = v }

unfoldable pub write_dll : ℕ → UartRegs → UartRegs
write_dll v r =
    if bit_at r.lcr 7 == 0 then record r { tx = r.tx ++ (v ∷ []) } else record r { dll = v }

unfoldable pub write_dlm : ℕ → UartRegs → UartRegs
write_dlm v r = if bit_at r.lcr 7 == 0 then record r { ier = v } else record r { dlm = v }

unfoldable pub write_fcr : ℕ → UartRegs → UartRegs
write_fcr v r = if bit_at v 1 == 0 then r else record r { rx = [] }

unfoldable pub pass : Event → UartRegs → UartRegs
pass (free, bytes) r = record r { rx = take 16 (r.rx ++ bytes) }

unfoldable pub rx_ready : List ℕ → ℕ
rx_ready [] = 0
rx_ready (x ∷ l) = 1

unfoldable pub line_status : Event → UartRegs → ℕ
unfolding rx_ready
line_status (free, bytes) r = rx_ready r.rx + (if free then 32 else 0)

-- `rflpc_uart_putchar`
unfoldable pub putchar : ℕ → List Event → UartRegs → Option (UartRegs × List Event)
unfolding pass line_status write_thr
putchar c [] r = none
putchar c (e ∷ es) r =
    let r' = pass e r in
    elim (bit_and (line_status e r') (shl 1 5) == 0) [
      | true ↦ putchar c es r'
      | false ↦ some (write_thr (bit_and c 0xff) r', es)
    ]

-- `rflpc_uart_byte_available`, on the status that is loaded, and `rflpc_uart_getchar`.
unfoldable pub byte_available : ℕ → ℕ
byte_available lsr = bit_and lsr 1

unfoldable pub read_rbr : UartRegs → ℕ
read_rbr r = elim r.rx [ [] ↦ 0 | x ∷ l ↦ x ]

unfoldable pub getchar : List Event → UartRegs → Option (ℕ × UartRegs × List Event)
unfolding pass line_status byte_available read_rbr
getchar [] r = none
getchar (e ∷ es) r =
    let r' = pass e r in
    elim (byte_available (line_status e r') == 0) [
      | true ↦ getchar es r'
      | false ↦ some (bit_and (read_rbr r') 0xff, record r' { rx = drop 1 r'.rx }, es)
    ]

-- `_rflpc_uart_init`, the part about the UART's registers: DLL, DLM and FDR have eight bits.
unfoldable pub set_line : ℕ → ℕ → ℕ → ℕ → UartRegs → UartRegs
unfolding write_dll write_dlm write_fcr
set_line dll dlm divadd mulval r =
    let r₁ = record r { lcr = bit_or 3 (shl 1 7) } in
    let r₂ = write_dlm (u8 dlm) (write_dll (u8 dll) r₁) in
    let r₃ = write_fcr 7 (record r₂ { fdr = u8 (bit_or divadd (shl mulval 4)) }) in
    record r₃ { lcr = clr_bit r₃.lcr 7 }

-- The configuration of a UART: the pins for sending and receiving, and their function.
unfoldable pub uart_pins : ℕ → ℕ → ℕ → System → System
unfolding set_pin_function
uart_pins tx_pin rx_pin pin_function s =
    set_pin_function tx_pin pin_function 0 0 (set_pin_function rx_pin pin_function 0 0 s)

pub record Uarts : Type 0 where
  pub system : System
  pub interrupts : Interrupts
  pub regs : ℕ → UartRegs

unfoldable pub on_uart : ℕ → (UartRegs → UartRegs) → Uarts → Uarts
on_uart n f u = record u { regs = λ k. if k == n then f (u.regs k) else u.regs k }

-- The power and the clock of a UART with its pins, where there is one of that number: the switch of
-- `rflpc_uart_init_ex`, and the table `_rflpc_uart_config` of the mbed board.
unfoldable pub with_clock : ℕ → System → Option System
unfolding power uart_pins
with_clock uart_num s =
    if uart_num == 0
    then some (
        let p = power 3 s in
        uart_pins 2 3 1 (record p { pclksel0 = bit_or p.pclksel0 (shl cclk_8 6) }))
    else if uart_num == 2
    then some (
        let p = power 24 s in
        uart_pins 10 11 1 (record p { pclksel1 = bit_or p.pclksel1 (shl cclk_8 16) }))
    else if uart_num == 3
    then some (
        let p = power 25 s in
        uart_pins 0 1 2 (record p { pclksel1 = bit_or p.pclksel1 (shl cclk_8 18) }))
    else none

-- `rflpc_uart_init_ex`, with what rflpc_clock_get_system_clock returns, and `rflpc_uart_init`.
unfoldable pub uart_init_ex : ℕ → ℕ → ℕ → ℕ → ℕ → ℕ → Uarts → ℤ × Uarts
unfolding with_clock set_line on_uart
uart_init_ex system_clock uart_num dll dlm divadd mulval u =
    if not (system_clock == 96000000) then (negsuc 0, u) else elim (with_clock uart_num u.system) [
      | none ↦ (negsuc 0, u)
      | some s ↦
          (pos 0, on_uart uart_num (set_line dll dlm divadd mulval) (record u { system = s }))
    ]

unfoldable pub uart_init : ℕ → ℕ → Uarts → ℤ × Uarts
unfolding uart_init_ex
uart_init system_clock uart_num u = uart_init_ex system_clock uart_num 4 0 5 8 u

-- `rflpc_uart_set_rx_callback`: UART0_IRQn is 5.
unfoldable pub uart_set_rx_callback : ℕ → ℕ → Uarts → Uarts
unfolding on_uart irq_set_handler enable_irq
uart_set_rx_callback uart_num callback u =
    on_uart uart_num (λ r. record r { ier = bit_or r.ier 1 })
      (record u {
        interrupts =
            enable_irq (5 + uart_num)
              (irq_set_handler (Irq.pos (5 + uart_num)) callback u.interrupts);
      })
