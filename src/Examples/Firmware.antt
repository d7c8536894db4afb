-- ===== src/Examples/Firmware.antt =====
-- The mailbox of src/soc/s9p-acpm.c with an APM that shows empty rings.
use galaxy_s9plus_mainline_l.Common.{
  ℕ, ◌+◌, ◌≤◌, ◌≡◌, refl, true, false, [], Option, none, some, Ret, enodev, arith,
}
use galaxy_s9plus_mainline_l.Platform.{Hardware}
use galaxy_s9plus_mainline_l.Platform.Monad.Loop.{Returns}
use galaxy_s9plus_mainline_l.Acpm.{Channel, S, initial_vars, init}
use galaxy_s9plus_mainline_l.Acpm.Channels.{IsSetUp, init-IsSetUp}
use galaxy_s9plus_mainline_l.Acpm.Transfer.{
  Words, command, send, wait_room, pmic_update, consume_rx, mfd_xfer,
}
use galaxy_s9plus_mainline_l.Acpm.Transfer.Drain.{Acknowledged, consume_rx_empties}
use galaxy_s9plus_mainline_l.Acpm.Transfer.Send.{Sent, acts, send_order}
use galaxy_s9plus_mainline_l.Acpm.Transfer.Ends.{Serves, mfd_xfer-Returns}
use galaxy_s9plus_mainline_l.Acpm.Touch.{DriverCore, touch_work, touch_ldo_power_cycle}
use galaxy_s9plus_mainline_l.Acpm.Touch.Bounds.{Reruns, stop, again, touch_work_ends}
use galaxy_s9plus_mainline_l.Examples.{bench}

abbrev clock : ℕ → ℕ
clock w = w

abbrev channel : Channel
channel = record {
  tx_rear = 0x8000;
  tx_front = 0x8004;
  tx_base = 0x82f0;
  rx_rear = 0x8008;
  rx_front = 0x800c;
  rx_base = 0x8290;
  q_len = 4;
  q_elem_size = 16;
  id = 2;
}

abbrev up : S bench
up = record { world = 0; log = []; vars = record initial_vars { mapped = true; mfd_ch = channel } }

abbrev down : S bench
down = record { world = 0; log = []; vars = initial_vars }

init-IsSetUp_example : IsSetUp (init bench true true down).0 (init bench true true down).1.vars
init-IsSetUp_example = init-IsSetUp bench true true down

consume_rx_empties_example :
    (found : Option Words) × (t : S bench) × (consume_rx bench 4 true 1 up ≡ some (found, t))
    × (t.vars ≡ up.vars)
    × Acknowledged bench up t
consume_rx_empties_example =
    consume_rx_empties bench 4 true 1 up (omega arith) (omega arith) (omega arith) (omega arith)

abbrev end_of {ℓ} : {A : Type ℓ} → A → Option A → A
end_of d none = d
end_of d (some a) = a

abbrev sent : Ret × S bench
sent = end_of (none, up) (send bench clock 2 (command 1 0x20 0x88 0) up)

sent_run : send bench clock 2 (command 1 0x20 0x88 0) up ≡ some (sent.0, sent.1)
unfolding send wait_room
sent_run = refl

send_order_example : Sent channel (command 1 0x20 0x88 0) 0 [] sent.0 (acts sent.1.log)
send_order_example = send_order bench clock 2 (command 1 0x20 0x88 0) up sent.0 sent.1 sent_run

refused : mfd_xfer bench clock 1 1 0x20 0x88 0 down ≡ some ((some enodev, none), down)
unfolding mfd_xfer
refused = refl

-- The touch controller is there, without a driver.
abbrev no_driver : DriverCore ℕ
no_driver = record { touch_bound = λ w. some false; reprobe = λ w. w }

abbrev tried : S bench
tried = record down { vars = record initial_vars { apm_tries = 1 } }

tried_run : touch_work bench clock 1 no_driver down ≡ some (true, tried)
unfolding touch_work touch_ldo_power_cycle pmic_update mfd_xfer
tried_run = refl

one_rerun : Reruns bench clock 1 no_driver down 1
one_rerun = again down tried tried 0 tried_run (refl, refl, refl) (stop tried)

touch_work_ends_example : 1 ≤ 81
touch_work_ends_example = touch_work_ends bench clock 1 no_driver down 1 refl refl refl one_rerun

-- A machine on which each read takes a nanosecond.
abbrev slow_bench : Hardware ℕ
slow_bench = record bench { read_reg = λ a w. (0, w + 1) }

abbrev serves : Serves slow_bench clock channel
serves = record {
  reads = λ a w. omega arith;
  writes = λ a v w. omega arith;
  sleeps = λ us w. omega arith;
  front_inside = λ w. omega arith;
  rear_inside = λ w. omega arith;
  fits = omega arith;
}

abbrev slow_up : S slow_bench
slow_up = record { world = 0; log = []; vars = up.vars }

mfd_xfer-Returns_example : Returns (mfd_xfer slow_bench clock 600000005 1 0x20 0x88 0) slow_up
mfd_xfer-Returns_example =
    mfd_xfer-Returns slow_bench clock channel serves 600000004 1 0x20 0x88 0 slow_up refl
      (omega arith)
