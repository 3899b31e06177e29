-- ===== src/Drivers/Tests.antt =====
-- The keyboard of kernel/src/drivers/keyboard.cpp on concrete scan codes.
use pocky.Common.{◌<◌, ◌≤◌, ◌≡◌, ◌↔◌, refl, true, false}
use pocky.Drivers.Keyboard.{Keyboard, KeyEvent, keyboard_handler, translate, deliver}
use pocky.Drivers.Keyboard.Outcome.{keyboard_handler_reads_past}

abbrev keyboard : Keyboard
keyboard = record { registered = true; shift_pressed = false; ctrl_pressed = true }

-- Control and C.
control_c : (keyboard_handler 46 keyboard).1 ≡ KeyEvent.key 3
unfolding keyboard_handler translate deliver
control_c = refl

keyboard_handler_reads_past_example :
    ((keyboard_handler 58 keyboard).1 ≡ KeyEvent.past_table) ↔ ((58 ≤ 58) × (58 < 60))
keyboard_handler_reads_past_example = keyboard_handler_reads_past 58 keyboard
