-- ===== src/Examples/Ports.antt =====
-- The PCIe host of src/pci/pcie-exynos9810.c and the PHY of src/usb/phy-exynos9810-usbdrd.c.
use galaxy_s9plus_mainline_l.Common.{
  has, Bool, false, ℕ, ◌+◌, ◌≡◌, refl, true, false, ◌&&◌, [], ◌∷◌, none, ◌==◌, ltb, bit,
  if◌then◌else◌, Since,
}
use galaxy_s9plus_mainline_l.Bus.{Bus, readl, notify, write}
use galaxy_s9plus_mainline_l.Pcie
use galaxy_s9plus_mainline_l.Pcie.Link.{irq_handler}
use galaxy_s9plus_mainline_l.Pcie.Irq.{runs, irq_handler_lem}
use galaxy_s9plus_mainline_l.Pcie.Order.{InOrder, host_init-InOrder}
use galaxy_s9plus_mainline_l.Usb
use galaxy_s9plus_mainline_l.Usb.Memory.{Memory}
use galaxy_s9plus_mainline_l.Usb.Powered.{Powered}
use galaxy_s9plus_mainline_l.Usb.Released.{Released, init-Released}

-- A host whose INTA and INTB lines are pending, and whose link does not come up.
abbrev slot : Bus Pcie.Win Pcie.Call (Unit {0})
slot = record {
  read_reg = λ x a w. (5, w);
  write_reg = λ x a v w. w;
  poll_reg = λ x a cond us w. (0, w);
  update_bits = λ x a mask bits w. w;
  elapse = λ us w. w;
  kernel = λ c w. (none, w);
}

abbrev port : Pcie.P slot
port = record { world = tt; log = []; vars = record { has_wl_reg_on = true } }

host_init-InOrder_example : InOrder [] (Pcie.host_init slot port).1.log
host_init-InOrder_example = host_init-InOrder slot port

irq_handler_lem_example :
    let (v, u) = readl slot Pcie.elbi Pcie.irq_pulse (notify slot Pcie.irq_enter port).1 in
    let t = (irq_handler slot port).1 in
    (runs 1 t.log ≡ (if ltb 1 4 && bit 2 v then 1 else 0) + runs 1 port.log)
    × Since (write Pcie.elbi Pcie.irq_pulse v ∷ u.log) t.log
    × (runs 1 u.log ≡ runs 1 port.log)
irq_handler_lem_example = irq_handler_lem slot 1 port

-- A PHY whose registers hold what is written: those of the USB block, and bit 0 of those of the PMU.
record Cells : Type 0 where
  usb_cells : ℕ → ℕ
  pmu_cells : ℕ → Bool

abbrev peek : Usb.Win → ℕ → Cells → ℕ
peek Usb.usbcon a w = w.usb_cells a
peek Usb.pmu a w = 0

abbrev poke : Usb.Win → ℕ → ℕ → Cells → Cells
poke Usb.usbcon a v w = record w { usb_cells = λ b. if a == b then v else w.usb_cells b }
poke Usb.pmu a v w = w

abbrev plug : Bus Usb.Win Usb.Call Cells
plug = record {
  read_reg = λ x a w. (peek x a w, w);
  write_reg = poke;
  poll_reg = λ x a cond us w. (peek x a w, w);
  update_bits =
      λ x a mask bits w. record w { pmu_cells = λ b. if a == b then has 0 bits else w.pmu_cells b };
  elapse = λ us w. w;
  kernel = λ c w. (none, w);
}

abbrev plug-Memory : Memory plug
plug-Memory = record {
  held = λ w. w.usb_cells;
  read_back = λ a w. refl;
  read_keeps = λ x a b w. refl;
  write_takes = λ a v b w. refl;
  update_keeps = λ x a mask bits b w. refl;
  elapse_keeps = λ us b w. refl;
  kernel_keeps = λ c b w. refl;
  powered = λ w. w.pmu_cells;
  powered_read = λ x a b w. refl;
  powered_write = λ a v b w. refl;
  powered_update = λ a bits b w. refl;
  powered_elapse = λ us b w. refl;
}

abbrev cold : Usb.U plug
cold = record {
  world = record { usb_cells = λ a. 0xffffffff; pmu_cells = λ a. false };
  log = [];
  vars = record { has_pmu = true; tune = true; rewa = false };
}

init-Released_example :
    let (ret, t) = Usb.init plug cold in
    (ret ≡ none) × Released plug-Memory t × (cold.vars.has_pmu ≡ true → Powered plug-Memory t)
init-Released_example = init-Released plug-Memory cold refl
