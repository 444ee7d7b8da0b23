-- ===== src/Uart/Tests.antt =====
-- UART 0 at 115200 bauds.
use rflpc.Base.{◌≡◌, List, [], ◌∷◌, true, false, refl, arith}
use rflpc.Uart.{Uarts, Event}
use rflpc.Uart.Ready.{uart_init_ex-putchar}

abbrev board : Uarts
board = record {
  system = record {
    pconp = 0;
    pclksel0 = 0;
    pclksel1 = 0;
    pincon = record { pinsel = λ k. 0; pinmode = λ k. 0; pinmode_od = λ k. 0 };
  };
  interrupts = record {
    rom_interrupts = λ k. 0;
    ram_interrupts = λ k. 0;
    vtor = 0;
    global = false;
    enabled = λ k. 0;
  };
  regs = λ k. record { lcr = 0; dll = 1; dlm = 0; fdr = 16; ier = 0; tx = 65 ∷ []; rx = [] };
}

abbrev loads : List Event
loads = (false, 7 ∷ []) ∷ (true, []) ∷ []

uart_init_ex-putchar_example :
    (uart_init_ex-putchar 0 4 0 5 8 66 3 loads board refl
      (omega arith)
      (omega arith)
      (λ e. absurd (omega (arith, e)))).2.0.after.tx
    ≡ 65 ∷ 66 ∷ []
uart_init_ex-putchar_example =
    (uart_init_ex-putchar 0 4 0 5 8 66 3 loads board refl (omega arith) (omega arith)
      (λ e. absurd (omega (arith, e)))).2.1
