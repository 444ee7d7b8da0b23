-- ===== src/Lib.antt =====
-- rflpc, a library for programming the LPC17xx micro-controllers without an operating system.
--
-- The program is a set of drivers that read and write the registers of the chip's peripherals, a small
-- C library, and samples. A driver's function is modelled as a function from the state that it reads
-- (its static variables, memory, what the hardware shows) to what it returns and leaves.
--
-- Base: the native numbers, tests and lists; Base/Bits the bits of a number; Base/Word the machine words
--   (a w-bit value is kept below 2^w by `% 2 ^ w`) and the macros of rflpc17xx/tools.h; Base/Memory a
--   byte memory as a function of the address.
-- I2c: rflpc17xx/drivers/i2c.c. The flags, the return word, and the register accesses, which are a log.
--   I2c/Write is rflpc_i2c_write, I2c/Read is rflpc_i2c_read: `round` is the body of the switch, `rounds`
--   the loop, over the list of the values that I2STAT (and I2DAT) show. Where the list ends the call still
--   waits. For the slave's state 0xA8 rflpc_i2c_read calls rflpc_i2c_write on port 2, as the code does.
-- Tinylibc: rflpc17xx/tinylibc. Duff is the unrolled loop of memcpy.c and memset.c; Memcpy and Memset are
--   the functions on a byte memory, Rand is rand.c, Printf is printf.c: Numbers has the macros
--   PUT_INT_NUMBER and PUT_HEXA_VAL, Convert the function printf.
-- Iap: rflpc17xx/iap.c, which uses memcpy. Iap/Manual is what the user manual says of the ROM function.
-- Protocols: samples/dhcp/protocols.c and protocols.h. Fields has the macros that get and put a field,
--   Headers and Ip the headers with their mangle and demangle functions, Checksum proto_checksum. A packet
--   is a run of bytes in a byte memory of a little-endian core; the union of an ICMP header is its word of
--   32 bits.
-- Ethernet: rflpc17xx/drivers/ethernet.h and ethernet.c. `Emac` has the registers that the functions use;
--   Receive and Transmit are about the two rings, Queue has the steps of the block and of the driver on the
--   receive ring, and the queue that they refine. Mii is the access to the registers of the PHY, on
--   management registers that are a parameter; Link and Init use it through the record `Mii`, and what the
--   data sheet says of the PHY is a record of hypotheses (KeepsBmcr, Negotiates).
-- SimpleNet: samples/dhcp/simple_net.c, the interrupt handler with its callback, and the buffers.
-- Responder: samples/ethernet/main.c, the answers to ARP and ICMP echo requests; Requests, Arp, Echo and Frame
--   build up to Ping. It uses Protocols for the headers and the sender of SimpleNet for the transmit ring.
-- SimpleUdp: samples/simple_udp/protocol.c and main.c, the answer to a datagram; Headers has its fields as those of
--   Protocols, Reply the whole frame. It uses the sender of SimpleNet.
-- Dhcp: samples/dhcp/dhcp.c, dhcp.h and main.c. Options is the search in a message's options, Heads the
--   message as bytes, Client the messages that are sent and the loop over a received one.
-- Interrupt: rflpc17xx/interrupt.c and interrupt.h. SysTimer: rflpc17xx/drivers/sys_tick_timer.c and
--   sys_tick_timer.h, which use it; Period has the counter from tick to tick.
-- System: the registers for power, peripheral clocks and pins, which the drivers share. Clock: rflpc17xx/clock.c;
--   Feed is the feed sequence of the PLL, Sequence the whole set-up.
-- Adc, Spi, Uart: the drivers adc.c, spi.c and uart.c with their headers. A status or data register is the list of
--   what its loads show, or of what happens between them. Rit: rit.c and dac.c. I2c/Init is rflpc_i2c_init.
-- Lm75b: samples/i2c-test-mbed-board/lm75b.c, on I2c. LedMatrix: samples/spi-leds, on Spi; Letters and Scroll are
--   about the dots that are drawn, Display about the bytes that are sent.
-- Dma: rflpc17xx/drivers/dma.c; Transfer has what a started channel moves.
-- Gpio: rflpc17xx/drivers/gpio.c, which uses Pin.
-- Pin: rflpc17xx/pinconf.c. The shared registers of a bank of pins are a function of their number.
-- Timer: rflpc17xx/drivers/timer.c. `Board` has the registers of each timer and those of the system.
-- Pwm: rflpc17xx/drivers/pwm.c, on the timer of the PWM block. Edges has what a channel's output is for the
-- registers, as the manual says, and Setup which pins are accepted and how the period changes.
-- Leds: rflpc17xx/drivers/leds.h, which uses Gpio.
--
-- Fuel: PUT_INT_NUMBER has 10 and 11 rounds, which ten decimal digits need; printf's loop has one round
-- per character and one more; the loops of rflpc_iap_write_buffer and rflpc_iap_transfert_4ks_to_32k have
-- `length + 1` rounds, since each round takes a byte or more from the
-- length; the carries of proto_checksum are added in two rounds at most, and a third one finds none. The
-- loops over the options of a DHCP message move on by two bytes or more in each round, so 32 rounds leave
-- them. The waits for hardware take their fuel as an argument: the code waits for ever, and a wait has a
-- result when the fuel is above the number of reads that the hardware needs.
--
-- Not modelled: the vendored headers in rflpc17xx/nxp, start-up and linker symbols,
-- what the samples print and their main loops. Where a sample copies a header, a whole message or a hardware
-- address with memcpy, six bytes or more, from a local variable, the model stores its bytes; the values of
-- DHCP options, which may be shorter, go through the model of memcpy, between addresses that are arguments. An
-- address is a plain number, and memory does not end. In printf a missing argument or a format that ends
-- inside a conversion gives no result, where the code reads what happens to be there.
pub mod Adc
pub mod Base
pub mod Clock
pub mod Dhcp
pub mod Dma
pub mod Ethernet
pub mod Gpio
pub mod I2c
pub mod Iap
pub mod Interrupt
pub mod LedMatrix
pub mod Leds
pub mod Lm75b
pub mod Pin
pub mod Protocols
pub mod Pwm
pub mod Responder
pub mod Rit
pub mod SimpleNet
pub mod SimpleUdp
pub mod Spi
pub mod SysTimer
pub mod System
pub mod Timer
pub mod Tinylibc
pub mod Uart
