-- ===== src/Ethernet/Mii.antt =====
-- rflpc17xx/drivers/ethernet.c: the access to the registers of the PHY. The management registers of the
-- Ethernet block are a parameter, `Station`: what a load shows and what a store does. A wait that the fuel
-- ends has no result: the code is still waiting.
pub mod Cycles
mod Tests
use rflpc.Base.{
  ℕ, zero, suc, true, false, ◌+◌, ◌-◌, ◌*◌, ◌^◌, ◌≤◌, ◌<◌, ◌==◌, if◌then◌else◌, bit_and, bit_or,
  Option, none, some, ◌>>=◌, ◌≡◌, arith,
}
use rflpc.Base.Word.{shl, u16}

pub data MiiRegister : Type 0 where
  madr mwtd mcmd mrdd mind : MiiRegister

pub record Station (H : Type 0) : Type 0 where
  pub load : MiiRegister → H → ℕ × H
  pub store : MiiRegister → ℕ → H → H

-- What the functions of the link use: the registers of the PHY by their number.
pub record Mii (H : Type 0) : Type 0 where
  pub read : ℕ → H → Option (ℕ × H)
  pub write : ℕ → ℕ → H → Option H

-- `RFLPC_ETH_MIND_BUSY` and `RFLPC_ETH_MIND_NOT_VALID`
abbrev pub mind_busy : ℕ
mind_busy = 1

abbrev pub mind_not_valid : ℕ
mind_not_valid = shl 1 2

-- `RFLPC_ETH_PHY_ADDR`
abbrev pub phy_addr : ℕ
phy_addr = 0x01

module _ {H : Type 0} (s : Station H) where
  unfoldable pub wait_busy : ℕ → H → Option H
  wait_busy zero h = none
  wait_busy (suc fuel) h =
      let (m, h₁) = s.load mind h in
      elim (bit_and m mind_busy == 0) [ true ↦ some h₁ | false ↦ wait_busy fuel h₁ ]

  -- The condition reads the register twice.
  unfoldable pub wait_valid : ℕ → H → Option H
  wait_valid zero h = none
  wait_valid (suc fuel) h =
      let (m, h₁) = s.load mind h in
      let (n, h₂) = s.load mind h₁ in
      elim (bit_or (bit_and m mind_busy) (bit_and n mind_not_valid) == 0) [
        | true ↦ some h₂
        | false ↦ wait_valid fuel h₂
      ]

  unfoldable pub write_to_phy_register_with_addr : ℕ → ℕ → ℕ → ℕ → H → Option H
  unfolding wait_busy
  write_to_phy_register_with_addr fuel addr reg value h =
      wait_busy fuel (s.store mwtd (u16 value) (s.store madr (bit_or (shl addr 8) reg) h))

  unfoldable pub read_from_phy_register_with_addr : ℕ → ℕ → ℕ → H → Option (ℕ × H)
  unfolding wait_valid
  read_from_phy_register_with_addr fuel addr reg h = do
    h₁ ← wait_valid fuel (s.store mcmd 1 (s.store madr (bit_or (shl addr 8) reg) h))
    let (v, h₂) = s.load mrdd (s.store mcmd 0 h₁)
    some (u16 v, h₂)

  -- `_read_from_phy_register` and `_write_to_phy_register`
  unfoldable pub phy : ℕ → Mii H
  unfolding write_to_phy_register_with_addr read_from_phy_register_with_addr
  phy fuel = record {
    read = read_from_phy_register_with_addr fuel phy_addr;
    write = write_to_phy_register_with_addr fuel phy_addr;
  }
