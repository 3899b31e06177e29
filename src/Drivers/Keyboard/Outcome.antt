-- ===== src/Drivers/Keyboard/Outcome.antt =====
-- Which scan codes of kernel/src/drivers/keyboard.cpp lead out of the tables.
use pocky.Common.{
  ℕ, zero, suc, ◌<◌, ◌≤◌, ◌≡◌, ◌≢◌, ◌⊎◌, ◌↔◌, inl, inr, refl, sym, ap, ◌∙◌, true, none, some, List,
  [], ◌∷◌, get_elem?, length, if◌then◌else◌, ltb, ◌==◌, arith, Bool-cases,
}
use pocky.Drivers.Keyboard.{
  Keyboard, KeyEvent, scancode_to_ascii, scancode_to_ascii_shifted, deliver, translate,
  keyboard_handler,
}

inside : (xs : List ℕ) (i : ℕ) → i < length xs → (c : ℕ) × (get_elem? xs i ≡ some c)
inside [] i h = absurd (omega arith)
inside (x ∷ xs) zero h = (x, refl)
inside (x ∷ xs) (suc i) h = inside xs i (omega arith)

outside : (xs : List ℕ) (i : ℕ) → length xs ≤ i → get_elem? xs i ≡ none
outside [] i h = refl
outside (x ∷ xs) zero h = absurd (omega arith)
outside (x ∷ xs) (suc i) h = outside xs i (omega arith)

deliver-some : (k : Keyboard) (c : ℕ) → deliver k (some c) ≢ KeyEvent.past_table
unfolding deliver
deliver-some k c h = elim (Bool-cases (c == 0)) [
  | inl y ↦ absurd (ground arith)
  | inr n ↦ elim (Bool-cases (k.registered)) [
    | inl y ↦ absurd (ground arith)
    | inr m ↦ absurd (ground arith)
  ]
]

deliver-none : (k : Keyboard) → deliver k none ≡ KeyEvent.past_table
unfolding deliver
deliver-none k = refl

abbrev table_of : Keyboard → List ℕ
table_of k = if k.shift_pressed then scancode_to_ascii_shifted else scancode_to_ascii

length-table_of : (k : Keyboard) → length (table_of k) ≡ 58
length-table_of k = elim (Bool-cases (k.shift_pressed)) [ inl y ↦ rw y refl | inr n ↦ rw n refl ]

translate_inside : (k : Keyboard) (s : ℕ) → s < 58 → translate k s ≢ KeyEvent.past_table
unfolding translate
translate_inside k s h e =
    let at = inside (table_of k) s (omega (arith, h, length-table_of k)) in
    deliver-some k at.0
      (ap (λ o. deliver k o) (sym at.1) ∙ let low : ltb s 60 ≡ true = ground arith in rw low at e)

translate_outside : (k : Keyboard) (s : ℕ) → 58 ≤ s → s < 60 → translate k s ≡ KeyEvent.past_table
unfolding translate
translate_outside k s h l =
    let low : ltb s 60 ≡ true = ground arith in
    rw low (
      ap (λ o. deliver k o) (outside (table_of k) s (omega (arith, h, length-table_of k)))
      ∙ deliver-none k)

translate_beyond : (k : Keyboard) (s : ℕ) → 60 ≤ s → translate k s ≢ KeyEvent.past_table
unfolding translate
translate_beyond k s h e = ground arith

-- What the handler does with a code that is no shift or control key.
handler_translates :
    (s : ℕ) (k : Keyboard)
    → ((keyboard_handler s k).1 ≡ KeyEvent.no_key) ⊎ ((keyboard_handler s k).1 ≡ translate k s)
unfolding keyboard_handler
handler_translates s k = ground arith

handler_plain : (s : ℕ) (k : Keyboard) → 58 ≤ s → s < 60 → (keyboard_handler s k).1 ≡ translate k s
unfolding keyboard_handler
handler_plain s k h l = ground arith

-- Whatever keys are held, the interrupt handler reads behind the end of the tables exactly for the
-- scan codes 58 and 59.
pub keyboard_handler_reads_past :
    (s : ℕ) (k : Keyboard)
    → ((keyboard_handler s k).1 ≡ KeyEvent.past_table) ↔ ((58 ≤ s) × (s < 60))
keyboard_handler_reads_past s k = (
  λ e. elim (handler_translates s k) [
    | inl quiet ↦ absurd (ground arith)
    | inr same ↦
        let past : translate k s ≡ KeyEvent.past_table = sym same ∙ e in
        elim (Bool-cases (ltb s 58)) [
          | inl low ↦ absurd (translate_inside k s (ground arith) past)
          | inr high ↦ elim (Bool-cases (ltb s 60)) [
            | inl below ↦ (ground arith, ground arith)
            | inr above ↦ absurd (translate_beyond k s (ground arith) past)
          ]
        ]
  ],
  λ h. handler_plain s k h.0 h.1 ∙ translate_outside k s h.0 h.1,
)
