-- ===== src/Ethernet/Mii/Tests.antt =====
-- The accesses to the PHY on concrete management registers.
use rflpc.Base.{
  ℕ, zero, suc, ◌-◌, ◌*◌, ◌==◌, false, if◌then◌else◌, bit_and, min, some, ◌≡◌, refl, arith,
}
use rflpc.Ethernet.Mii.{Station, MiiRegister, madr, mwtd, mcmd, mrdd, mind, phy}
use rflpc.Ethernet.Mii.Cycles.{select, Phy, FollowsManual, phy_accesses}

shows_busy : (n : ℕ) → bit_and (if n == 0 then 0 else 5) 1 ≡ min 1 n
shows_busy zero = refl
shows_busy (suc n) = let used : (suc n == 0) ≡ false = ground arith in rw used (omega arith)

shows_not_valid : (n : ℕ) → bit_and (if n == 0 then 0 else 5) 4 ≡ 4 * min 1 n
shows_not_valid zero = refl
shows_not_valid (suc n) = let used : (suc n == 0) ≡ false = ground arith in rw used (omega arith)

-- Management registers whose cycles take two reads of MIND, and a PHY whose registers keep what is written. A cycle
-- under way is complete when `busy` is 0: then the registers are those of `next`, and MRDD shows `data_read`.
record Management : Type 0 where
  address : ℕ
  busy : ℕ
  data_read : ℕ
  registers : ℕ → ℕ
  next : ℕ → ℕ

abbrev write_register : ℕ → ℕ → (ℕ → ℕ) → ℕ → ℕ
write_register a v regs k = if k == a then v else regs k

abbrev completed : Management → ℕ → ℕ
completed h = if h.busy == 0 then h.next else h.registers

abbrev loads : MiiRegister → Management → ℕ × Management
loads mind h = (if h.busy == 0 then 0 else 5, record h { busy = h.busy - 1 })
loads mrdd h = (if h.busy == 0 then h.data_read else 0xffff, h)
loads r h = (0, h)

abbrev stores : MiiRegister → ℕ → Management → Management
stores madr v h = record h { address = v }
stores mwtd v h = record h {
  busy = 2;
  registers = completed h;
  next = write_register h.address v (completed h);
}
stores mcmd v h = if v == 0 then h else record h {
  busy = 2;
  registers = completed h;
  next = completed h;
  data_read = completed h h.address;
}
stores r v h = h

abbrev station : Station Management
station = record { load = loads; store = stores }

abbrev plain_phy : Phy (ℕ → ℕ)
plain_phy = record {
  value = λ r p. p (select r);
  read_leaves = λ r p. p;
  write_leaves = λ r v p. write_register (select r) v p;
}

station_follows : FollowsManual station plain_phy completed
station_follows = record {
  left = λ h. h.busy;
  due = λ h. h.next;
  word = λ h. h.data_read;
  latency = 2;
  polls_busy = λ h. shows_busy h.busy;
  polls_valid = λ h. shows_not_valid h.busy;
  polls_left = λ h. refl;
  polls_due = λ h. refl;
  polls_word = λ h. refl;
  complete = λ h z. rw z refl;
  write_left = λ r v h. omega arith;
  write_due = λ r v h z. refl;
  read_left = λ r h. omega arith;
  read_word = λ r h z. refl;
  read_due = λ r h z. refl;
  end_shown = λ h z. rw z refl;
  end_view = λ h z. refl;
  end_left = λ h z. z;
}

abbrev idle : Management
idle = record { address = 0; busy = 0; data_read = 0; registers = λ k. 0x3100; next = λ k. 0x3100 }

phy_accesses_example :
    ((h' : Management) × ((phy station 3).write 0 0x12345 idle ≡ some h')
      × (h'.busy ≡ 0)
      × (completed h' ≡ plain_phy.write_leaves 0 0x2345 idle.registers))
    × ((h' : Management) × ((phy station 3).read 0 idle ≡ some (0x3100, h'))
        × (h'.busy ≡ 0)
        × (completed h' ≡ idle.registers))
unfolding station_follows
phy_accesses_example =
    phy_accesses station plain_phy completed station_follows 3 0 0x12345 idle refl (omega arith)
