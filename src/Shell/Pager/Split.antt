-- ===== src/Shell/Pager/Split.antt =====
-- `split_text` of kernel/src/shell/pager.cpp: the loop ends, its lines fit, and no character is lost.
use mathlib.Core.List.{append-nil, append_assoc}
use pocky.Common.{
  ℕ, zero, suc, ◌+◌, ◌-◌, ◌<◌, ◌≤◌, ◌≡◌, refl, sym, ap, subst, ◌∙◌, ◌⊎◌, inl, inr, true, false,
  ◌&&◌, Option, some, List, [], ◌∷◌, ◌++◌, length, length-append, List-cases, All, if◌then◌else◌,
  ltb, leb, ◌==◌, arith, Bool-cases,
}
use pocky.Shell.Pager.{max_lines, max_line_length, newline, close, split_loop, split_text}

-- The characters of a text that are no newline.
unfoldable pub visible : List ℕ → List ℕ
visible [] = []
visible (c ∷ text) = if c == newline then visible text else c ∷ visible text

unfoldable pub joined : List (List ℕ) → List ℕ
joined [] = []
joined (line ∷ lines) = line ++ joined lines

joined-append :
    (lines : List (List ℕ)) (line : List ℕ) → joined (lines ++ (line ∷ [])) ≡ joined lines ++ line
unfolding joined
joined-append [] line = append-nil line
joined-append (l ∷ lines) line =
    ap (λ x. l ++ x) (joined-append lines line) ∙ sym (append_assoc l (joined lines) line)

abbrev pub Fits : List ℕ → Type 0
Fits line = length line < max_line_length

All-append :
    (lines : List (List ℕ)) (line : List ℕ)
    → All Fits lines
    → Fits line
    → All Fits (lines ++ (line ∷ []))
All-append [] line a f = (f, tt)
All-append (l ∷ lines) line a f = (a.0, All-append lines line a.1 f)

-- The lines `out` hold the characters `all` in order, all of them unless there was no more room.
pub record Splits (all : List ℕ) (result : Option (List (List ℕ))) : Type 0 where
  pub out : List (List ℕ)
  pub beyond : List ℕ
  pub returns : result ≡ some out
  pub fit : All Fits out
  pub bounded : length out ≤ max_lines
  pub kept : all ≡ joined out ++ beyond
  pub complete : length out < max_lines → beyond ≡ []

close-Splits :
    (lines : List (List ℕ)) (line rest : List ℕ)
    → All Fits lines
    → Fits line
    → length lines ≤ max_lines
    → (rest ≡ []) ⊎ (length lines ≡ max_lines)
    → Splits (joined lines ++ (line ++ rest)) (some (close lines line))
close-Splits lines line rest fit short few (inr full) = record {
  out = lines;
  beyond = line ++ rest;
  returns = ground arith;
  fit = fit;
  bounded = few;
  kept = refl;
  complete = λ h. absurd (omega arith);
}
close-Splits lines line rest fit short few (inl last) =
    elim (Bool-cases (ltb 0 (length line) && ltb (length lines) max_lines)) [
      | inl y ↦ rw y (record {
        out = lines ++ (line ∷ []);
        beyond = [];
        returns = refl;
        fit = All-append lines line fit short;
        bounded = ground (arith, length-append lines (line ∷ []));
        kept =
            ap (λ r. joined lines ++ (line ++ r)) last
            ∙ ap (λ l. joined lines ++ l) (append-nil line)
            ∙ sym (joined-append lines line)
            ∙ sym (append-nil (joined (lines ++ (line ∷ []))));
        complete = λ _. refl;
      })
      | inr n ↦ rw n (elim (List-cases line) [
        | inl empty ↦ record {
          out = lines;
          beyond = [];
          returns = refl;
          fit = fit;
          bounded = few;
          kept = ap (λ l. joined lines ++ (l ++ rest)) empty ∙ ap (λ r. joined lines ++ r) last;
          complete = λ _. refl;
        }
        | inr (c, cs, e) ↦ record {
          out = lines;
          beyond = line ++ rest;
          returns = refl;
          fit = fit;
          bounded = few;
          kept = refl;
          complete = λ h. absurd (ground (arith, ap length e));
        }
      ])
    ]

recast :
    {all all' : List ℕ} {result result' : Option (List (List ℕ))}
    → all ≡ all'
    → result ≡ result'
    → Splits all result
    → Splits all' result'
recast {all} {all'} {result} {result'} e r s =
    subst (λ a. Splits a result') e (subst (λ x. Splits all x) r s)

split_loop_full :
    (f c : ℕ) (text : List ℕ) (lines : List (List ℕ)) (line : List ℕ)
    → leb max_lines (length lines) ≡ true
    → some (close lines line) ≡ split_loop (suc f) (c ∷ text) lines line
unfolding split_loop
split_loop_full f c text lines line h = rw h refl

split_loop-newline :
    (f c : ℕ) (text : List ℕ) (lines : List (List ℕ)) (line : List ℕ)
    → leb max_lines (length lines) ≡ false
    → (c == newline) ≡ true
    → split_loop f text (lines ++ (line ∷ [])) [] ≡ split_loop (suc f) (c ∷ text) lines line
unfolding split_loop
split_loop-newline f c text lines line h n = rw (h, n) refl

split_loop_wrap :
    (f c : ℕ) (text : List ℕ) (lines : List (List ℕ)) (line : List ℕ)
    → leb max_lines (length lines) ≡ false
    → (c == newline) ≡ false
    → (length line == max_line_length - 1) ≡ true
    → split_loop f (c ∷ text) (lines ++ (line ∷ [])) [] ≡ split_loop (suc f) (c ∷ text) lines line
unfolding split_loop
split_loop_wrap f c text lines line h n w = rw (h, n, w) refl

split_loop_char :
    (f c : ℕ) (text : List ℕ) (lines : List (List ℕ)) (line : List ℕ)
    → leb max_lines (length lines) ≡ false
    → (c == newline) ≡ false
    → (length line == max_line_length - 1) ≡ false
    → split_loop f text lines (line ++ (c ∷ [])) ≡ split_loop (suc f) (c ∷ text) lines line
unfolding split_loop
split_loop_char f c text lines line h n w = rw (h, n, w) refl

visible-newline :
    (c : ℕ) (text : List ℕ) → (c == newline) ≡ true → visible text ≡ visible (c ∷ text)
unfolding visible
visible-newline c text h = rw h refl

visible_char :
    (c : ℕ) (text : List ℕ) → (c == newline) ≡ false → c ∷ visible text ≡ visible (c ∷ text)
unfolding visible
visible_char c text h = rw h refl

joined_next :
    (lines : List (List ℕ)) (line rest : List ℕ)
    → joined (lines ++ (line ∷ [])) ++ rest ≡ joined lines ++ (line ++ rest)
joined_next lines line rest =
    ap (λ l. l ++ rest) (joined-append lines line) ∙ append_assoc (joined lines) line rest

split_loop_lem :
    (f : ℕ) (text : List ℕ) (lines : List (List ℕ)) (line : List ℕ)
    → length text + length text + (if length line == max_line_length - 1 then 1 else 0) < f
    → All Fits lines
    → Fits line
    → length lines ≤ max_lines
    → Splits (joined lines ++ (line ++ visible text)) (split_loop f text lines line)
unfolding visible split_loop
split_loop_lem zero text lines line enough fit short few = absurd (omega arith)
split_loop_lem (suc f) [] lines line enough fit short few =
    close-Splits lines line [] fit short few (inl refl)
split_loop_lem (suc f) (c ∷ text) lines line enough fit short few =
    elim (Bool-cases (leb max_lines (length lines))) [
      | inl full ↦
          recast refl (split_loop_full f c text lines line full)
            (close-Splits lines line (visible (c ∷ text)) fit short few (inr (ground arith)))
      | inr room ↦
          let longer = length-append lines (line ∷ []) in
          elim (Bool-cases (c == newline)) [
            | inl n ↦
                recast
                  (joined_next lines line (visible text)
                    ∙ ap (λ v. joined lines ++ (line ++ v)) (visible-newline c text n))
                  (split_loop-newline f c text lines line room n)
                  (split_loop_lem f text (lines ++ (line ∷ [])) [] (ground arith)
                    (All-append lines line fit short) (omega arith) (ground (arith, longer)))
            | inr n ↦ elim (Bool-cases (length line == max_line_length - 1)) [
              | inl w ↦
                  recast (joined_next lines line (visible (c ∷ text)))
                    (split_loop_wrap f c text lines line room n w)
                    (split_loop_lem f (c ∷ text) (lines ++ (line ∷ [])) [] (ground arith)
                      (All-append lines line fit short) (omega arith) (ground (arith, longer)))
              | inr w ↦
                  recast
                    (ap (λ l. joined lines ++ l)
                      (append_assoc line (c ∷ []) (visible text)
                        ∙ ap (λ v. line ++ v) (visible_char c text n)))
                    (split_loop_char f c text lines line room n w)
                    (split_loop_lem f text lines (line ++ (c ∷ []))
                      (ground (arith, length-append line (c ∷ []))) fit
                      (ground (arith, length-append line (c ∷ []))) few)
            ]
          ]
    ]

-- With more than twice as much fuel as the text is long, `split_text` returns at most 1000 lines of at
-- most 255 characters. They hold the characters of the text that are no newline in order, and all of
-- them if there are fewer than 1000 lines.
pub split_text-Splits :
    (fuel : ℕ) (text : List ℕ)
    → length text + length text < fuel
    → Splits (visible text) (split_text fuel text)
unfolding split_text joined
split_text-Splits fuel text enough =
    split_loop_lem fuel text [] [] (omega arith) tt (omega arith) (omega arith)
