-- ===== src/Drivers/Keyboard.antt =====
-- kernel/src/drivers/keyboard.cpp. A scan code is an argument, since it comes from a port, and the
-- character that goes to the registered handler is the outcome. Acknowledging the interrupt is left out.
pub mod Outcome
use pocky.Common.{
  ℕ, ◌+◌, ◌-◌, Bool, true, false, ◌&&◌, ◌||◌, Option, none, some, List, [], ◌∷◌, get_elem?, length,
  if◌then◌else◌, ltb, leb, ◌==◌,
}

abbrev pub scancode_to_ascii : List ℕ
scancode_to_ascii =
    0 ∷ 27 ∷ 49 ∷ 50 ∷ 51 ∷ 52 ∷ 53 ∷ 54 ∷ 55 ∷ 56 ∷ 57 ∷ 48 ∷ 45 ∷ 61 ∷ 8 ∷ 9 ∷ 113 ∷ 119 ∷ 101
    ∷ 114 ∷ 116 ∷ 121 ∷ 117 ∷ 105 ∷ 111 ∷ 112 ∷ 91 ∷ 93 ∷ 10 ∷ 0 ∷ 97 ∷ 115 ∷ 100 ∷ 102 ∷ 103 ∷ 104
    ∷ 106 ∷ 107 ∷ 108 ∷ 59 ∷ 39 ∷ 96 ∷ 0 ∷ 92 ∷ 122 ∷ 120 ∷ 99 ∷ 118 ∷ 98 ∷ 110 ∷ 109 ∷ 44 ∷ 46 ∷ 47
    ∷ 0 ∷ 42 ∷ 0 ∷ 32 ∷ []

abbrev pub scancode_to_ascii_shifted : List ℕ
scancode_to_ascii_shifted =
    0 ∷ 27 ∷ 33 ∷ 64 ∷ 35 ∷ 36 ∷ 37 ∷ 94 ∷ 38 ∷ 42 ∷ 40 ∷ 41 ∷ 95 ∷ 43 ∷ 8 ∷ 9 ∷ 81 ∷ 87 ∷ 69 ∷ 82
    ∷ 84 ∷ 89 ∷ 85 ∷ 73 ∷ 79 ∷ 80 ∷ 123 ∷ 125 ∷ 10 ∷ 0 ∷ 65 ∷ 83 ∷ 68 ∷ 70 ∷ 71 ∷ 72 ∷ 74 ∷ 75 ∷ 76
    ∷ 58 ∷ 34 ∷ 126 ∷ 0 ∷ 124 ∷ 90 ∷ 88 ∷ 67 ∷ 86 ∷ 66 ∷ 78 ∷ 77 ∷ 60 ∷ 62 ∷ 63 ∷ 0 ∷ 42 ∷ 0 ∷ 32
    ∷ []

pub record Keyboard : Type 0 where
  pub registered : Bool
  pub shift_pressed : Bool
  pub ctrl_pressed : Bool

-- `past_table` is a read behind the end of the table.
pub data KeyEvent : Type 0 where
  no_key past_table : KeyEvent
  key : ℕ → KeyEvent

pub init_keyboard : Keyboard → Keyboard
init_keyboard k = record k { registered = false }

pub register_keyboard_handler : Keyboard → Keyboard
register_keyboard_handler k = record k { registered = true }

pub keyboard_read : ℕ → Option ℕ
keyboard_read scancode =
    if leb (length scancode_to_ascii) scancode then some 0 else get_elem? scancode_to_ascii scancode

-- A letter becomes its control code.
abbrev pub control : ℕ → ℕ
control c =
    if leb 97 c && leb c 122 then c - 97 + 1 else (if leb 65 c && leb c 90 then c - 65 + 1 else c)

unfoldable pub deliver : Keyboard → Option ℕ → KeyEvent
deliver k none = KeyEvent.past_table
deliver k (some c) =
    if c == 0
    then KeyEvent.no_key
    else (if k.registered
        then KeyEvent.key (if k.ctrl_pressed then control c else c)
        else KeyEvent.no_key)

unfoldable pub translate : Keyboard → ℕ → KeyEvent
translate k scancode =
    if ltb scancode 60
    then deliver k (
        get_elem? (if k.shift_pressed then scancode_to_ascii_shifted else scancode_to_ascii)
          scancode)
    else KeyEvent.no_key

-- 42 and 54 are the shift keys, 29 is control, and 128 more is the release.
unfoldable pub keyboard_handler : ℕ → Keyboard → Keyboard × KeyEvent
keyboard_handler scancode k =
    if scancode == 42 || scancode == 54
    then (record k { shift_pressed = true }, KeyEvent.no_key)
    else (if scancode == 170 || scancode == 182
        then (record k { shift_pressed = false }, KeyEvent.no_key)
        else (if scancode == 29
            then (record k { ctrl_pressed = true }, KeyEvent.no_key)
            else (if scancode == 157
                then (record k { ctrl_pressed = false }, KeyEvent.no_key)
                else (k, translate k scancode))))
