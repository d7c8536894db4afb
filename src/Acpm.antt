-- ===== src/Acpm.antt =====
-- src/soc/s9p-acpm.c: the shared memory of the APM firmware, its channel table and s9p_acpm_init.

pub mod Channels
pub mod Transfer
pub mod Touch
use galaxy_s9plus_mainline_l.Common.{
  ℕ, zero, suc, ◌+◌, ◌-◌, ◌*◌, ◌%◌, ◌^◌, ◌≤◌, Bool, true, false, not, ◌||◌, Option, none, some, Ret,
  Errno, enodev, enomem, ltb, ◌==◌, if◌then◌else◌,
}
use galaxy_s9plus_mainline_l.Platform.{Hardware, Machine, M, ◌>>=◌, ◌>>◌, pure}
use galaxy_s9plus_mainline_l.Platform

abbrev pub mbox : ℕ
mbox = 0x14100000

abbrev sram_map_off : ℕ
sram_map_off = 0x3000

abbrev sram : ℕ
sram = 0x02039000 + sram_map_off

abbrev initdata : ℕ
initdata = 0x7f00

abbrev pub intgr0 : ℕ
intgr0 = mbox + 0x08

abbrev pub intcr1 : ℕ
intcr1 = mbox + 0x20

abbrev pub intsr1 : ℕ
intsr1 = mbox + 0x28

abbrev mfd_channel : ℕ
mfd_channel = 2

-- struct s9p_ch.
pub record Channel : Type 0 where
  pub tx_rear : ℕ
  pub tx_front : ℕ
  pub tx_base : ℕ
  pub rx_rear : ℕ
  pub rx_front : ℕ
  pub rx_base : ℕ
  pub q_len : ℕ
  pub q_elem_size : ℕ
  pub id : ℕ

-- The static variables; `mapped` says that `mbox` is set, `scheduled` that the touch work is.
pub record AcpmVars : Type 0 where
  pub mapped : Bool
  pub mfd_ch : Channel
  pub seq : ℕ
  pub acpm_ready : Bool
  pub scheduled : Bool
  -- the static variables of s9p_touch_work
  pub apm_tries : ℕ
  pub cycles : ℕ
  pub probes : ℕ

abbrev pub no_channel : Channel
no_channel = record {
  tx_rear = 0;
  tx_front = 0;
  tx_base = 0;
  rx_rear = 0;
  rx_front = 0;
  rx_base = 0;
  q_len = 0;
  q_elem_size = 0;
  id = 0;
}

abbrev pub initial_vars : AcpmVars
initial_vars = record {
  mapped = false;
  mfd_ch = no_channel;
  seq = 1;
  acpm_ready = false;
  scheduled = false;
  apm_tries = 0;
  cycles = 0;
  probes = 0;
}

-- The address of an offset of the shared memory, as the u32 arithmetic of the accessors has it.
abbrev pub sram_at : ℕ → ℕ
sram_at off = sram + (off + 2 ^ 32 - sram_map_off) % 2 ^ 32

-- s9p_acpm_is_ready: a reply of the firmware has been seen.
abbrev pub is_ready : AcpmVars → Bool
is_ready vars = vars.acpm_ready

module _ {World : Type 0} (hw : Hardware World) where
  abbrev pub S : Type 0
  S = Machine World AcpmVars

  abbrev pub sram_read : ℕ → M S ℕ
  sram_read off = Platform.readl hw (sram_at off)

  abbrev pub sram_write : ℕ → ℕ → M S (Unit {0})
  sram_write off v = Platform.writel hw (sram_at off) v

  -- The eight words of the entry at `base`, in the order of the source.
  unfoldable read_channel : ℕ → ℕ → M S Channel
  read_channel wanted base = do
    txr ← sram_read ((base + 4 * 4) % 2 ^ 32)
    txf ← sram_read ((base + 5 * 4) % 2 ^ 32)
    txb ← sram_read ((base + 6 * 4) % 2 ^ 32)
    rxr ← sram_read ((base + 10 * 4) % 2 ^ 32)
    rxf ← sram_read ((base + 11 * 4) % 2 ^ 32)
    rxb ← sram_read ((base + 12 * 4) % 2 ^ 32)
    len ← sram_read ((base + 13 * 4) % 2 ^ 32)
    size ← sram_read ((base + 14 * 4) % 2 ^ 32)
    pure (record {
      tx_rear = txr;
      tx_front = txf;
      tx_base = txb;
      rx_rear = rxr;
      rx_front = rxf;
      rx_base = rxb;
      q_len = len;
      q_elem_size = size;
      id = wanted;
    })

  -- The loop of s9p_find_channel with `n` entries left, the next one at index `i`.
  unfoldable scan : ℕ → ℕ → ℕ → ℕ → M S (Option Channel)
  unfolding read_channel
  scan wanted table zero i s = (none, s)
  scan wanted table (suc n) i s =
      let base = (table + i * 72) % 2 ^ 32 in
      let (v, t) = sram_read base s in
      let (ch, u) = read_channel wanted base t in
      let rest = scan wanted table n (i + 1) t in if v % 2 ^ 8 == wanted then (some ch, u) else rest

  unfoldable find_channel : ℕ → M S (Option Channel)
  unfolding scan
  find_channel wanted s =
      let (table, t) = sram_read (initdata + 2 * 4) s in
      let (ap_max, u) = sram_read (initdata + 6 * 4) t in scan wanted table ap_max 0 u

  -- What s9p_acpm_init does with the channel found; a refused one leaves `mfd_ch` filled in.
  unfoldable take_channel : Option Channel → M S Ret
  take_channel none s = (some enodev, record s { vars = record (s.vars) { mapped = false } })
  take_channel (some ch) s =
      if ltb ch.q_len 2 || ltb ch.q_elem_size 16
      then (some enodev, record s { vars = record (s.vars) { mfd_ch = ch; mapped = false } })
      else (none, record s { vars = record (s.vars) { mfd_ch = ch; scheduled = true } })

  -- `mbox_ok` and `sram_ok` say whether the two ioremap calls gave an address.
  unfoldable pub init : Bool → Bool → M S Ret
  unfolding find_channel take_channel
  init mbox_ok sram_ok s =
      if not mbox_ok
      then (some enomem, record s { vars = record (s.vars) { mapped = false } })
      else if not sram_ok
      then (some enomem, record s { vars = record (s.vars) { mapped = false } })
      else (let (found, t) =
            find_channel mfd_channel (record s { vars = record (s.vars) { mapped = true } }) in
          take_channel found t)
