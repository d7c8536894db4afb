-- ===== src/Lib.antt =====
-- The kernel drivers that this port of mainline Linux to the Exynos 9810 adds.
--
-- The drivers hang together like this. src/soc/s9p-acpm.c talks to the APM firmware and gives the
-- others three calls on the main PMIC. src/cpufreq/s9p-cpufreq.c, once that driver is ready, sets the
-- two CPU clusters' PLLs and rails and runs the policy that caps clusters and GPU by temperature and
-- load.
-- src/soc/s9p-g3d.c sets the GPU's PLL and rail; src/soc/s9p-g3d-pd.c switches its power domain, under
-- the lock of the former. src/soc/s9p-max77705-muic.c, src/soc/s9p-clkgate.c and
-- src/soc/max77705_charger.c stand alone. src/ufs/ufs-cal-9810.c calibrates the UFS PHY by tables, for
-- the host driver src/ufs/ufs-exynos9810.c, whose hooks it calls back.
-- src/gpu/drm/s9p/s9p-decon.c takes over the display that the boot loader left running,
-- src/usb/phy-exynos9810-usbdrd.c is the PHY of the USB controller, and src/pci/pcie-exynos9810.c
-- brings up the PCIe port of the Wi-Fi module; the three call only the kernel's frameworks.
--
-- Files and code:
--   Common, Common/*      Boolean tests, lists, C integers and return codes that the others share
--   Platform, Platform/*  registers, delays, polls, PMIC and secure calls as a parameter, with the log
--                         of what a driver did; state passing, and `Loop` for busy loops
--   Thermal, Thermal/*    s9p_tmu_read, s9p_tmu_max, s9p_tmu_filtered, s9p_thermal_next and the level
--                         tables of src/cpufreq/s9p-cpufreq.c
--   Cpufreq               the tables, clusters, s9p_current_khz and the busy-core rule of that file
--   Cpufreq/Clock         s9p_set_step and s9p_target
--   Cpufreq/Policy        s9p_init, s9p_exit, s9p_idle_floor and s9p_policy_work
--   Cpufreq/Probe         s9p_cpufreq_probe, s9p_cpufreq_modinit and s9p_boost_set
--   G3d                   s9p_g3d_set_pll with its rollback, and s9p_g3d_apply
--   G3d/Driver            the module parameters, the clock operations, the domain lock and probe
--   PowerDomain           s9p_g3d_power_on, s9p_g3d_power_off and (in Probe) s9p_g3d_pd_probe of
--                         src/soc/s9p-g3d-pd.c
--   Acpm                  s9p_find_channel and s9p_acpm_init of src/soc/s9p-acpm.c
--   Acpm/Transfer         s9p_consume_rx, s9p_send, s9p_receive and s9p_acpm_mfd_xfer
--   Acpm/Touch            s9p_touch_ldo_power_cycle and s9p_touch_work
--   Muic, Clkgate         src/soc/s9p-max77705-muic.c and src/soc/s9p-clkgate.c
--   Charger               the regmap and constants as parameters, max77705_aicl_irq and the switch of
--                         src/soc/max77705_charger.c
--   Charger/Properties    the property getters and setters
--   Charger/Memory        what the driver relies on in the regmap
--   Charger/Setup         max77705_charger_initialize and the probe
--   Ufs                   the data of src/ufs/ufs-cal-9810.h and the hooks of src/ufs/ufs-exynos9810.c
--   Ufs/Tables, Ufs/Match the tables of src/ufs/ufs-cal-9810.c and the entries a link mode takes
--   Ufs/Uic               the waits and ufs_cal_config_uic
--   Ufs/Calib             the entry points and exynos_ufs_cal
--   Ufs/Driver            the resets and clocks of src/ufs/ufs-exynos9810.c
--   Ufs/Driver/Hooks      the operations of that file that ufshcd calls
--   Ufs/Driver/Setup      its reading of the device tree and of the clock list
--   Ufs/Driver/Init       exynos_ufs_init and exynos_ufs_fmp_init
--   Ufs/Driver/Events     exynos_ufs_event_notify and its dump of registers
--   Ufs/Plan              the commands of a table, as a specification of the walk
--   Bus                   register windows, system controllers and kernel calls as a parameter, for the
--                         three drivers below
--   Decon                 the scanout, interrupt, panel and pipe of src/gpu/drm/s9p/s9p-decon.c
--   Decon/Probe           s9p_decon_probe
--   Decon/Keeps           what keeps a property of the log and the driver, as an interface
--   Decon/Reached         the calls in any order, as a step relation
--   Decon/Panel           a panel that obeys the commands sent to it, as a specification
--   Usb                   src/usb/phy-exynos9810-usbdrd.c
--   Usb/Memory            registers that hold what is written, as an interface
--   Pcie, Pcie/Tables     exynos9810_pcie_host_init of src/pci/pcie-exynos9810.c and its tables
--   Pcie/Link, Pcie/Probe the link and the interrupt handler, and the probe
--   Examples, Examples/*  the theorems at concrete machines and states
-- The other files below a part hold its proofs and are named for what they prove.
--
-- The machine is a record of functions on an arbitrary world, so that nothing is assumed of what a
-- register reads back; a theorem that needs more says so. A function that takes a mutex from its first
-- access to its last is one step. The static variables of a driver are a record, an error is a value
-- of `Ret`, whose `none` is 0. Words are native numbers; where the source's arithmetic can leave 32
-- bits the model writes out the wrap-around.
--
-- Fuel: s9p_set_step waits for MUX_BUSY without a limit, and the fuel counts those polls; what is said
-- of it is of the runs that come back. In the mailbox it counts the turns of each loop: the walk
-- over the reply ring takes fewer turns than the ring has slots, the wait for room at most 421, and the
-- wait for a reply at most as many as its 600 ms have nanoseconds. The AICL loop of the charger and the
-- waits for a UFS lock have no bound either; no table of the UFS code waits for a lock. The reset of the
-- UFS controller polls until its 10 ms are over. Every other loop of the source has its own bound,
-- which the model uses.
--
-- Left out: log lines, the registration with the kernel's frameworks, the text side of the module
-- parameters, and of the UFS host driver the colours of the platform probe and the dumps of registers
-- but for those on an event. Memory barriers are left out, since the accesses keep their order, and so
-- are the registers that s9p-g3d-pd.c and s9p-clkgate.c read only for a message. The thermal policy
-- reads the clock once for each decision. Of the display the first-interrupt messages and the connector's mode list
-- are left out. The boot loader, which is another project's, is not modelled.
pub mod Common
pub mod Platform
pub mod Bus
pub mod Thermal
pub mod Cpufreq
pub mod G3d
pub mod PowerDomain
pub mod Acpm
pub mod Muic
pub mod Clkgate
pub mod Charger
pub mod Ufs
pub mod Decon
pub mod Usb
pub mod Pcie
pub mod Examples
