-- ===== src/Text/Wildcard/Sound.antt =====
-- `match_wildcard` decides the matching relation.
use pocky.Common.{
  ℕ, ◌≡◌, refl, ◌≢◌, ◌↔◌, inl, inr, Bool, true, false, some, List, [], ◌∷◌, if◌then◌else◌, ◌==◌,
  arith, Bool-cases, ==_self,
}
use pocky.Text.Wildcard.{star, only_stars, some_tail, is_empty, matches, match_wildcard}

-- A star stands for any characters, every other character for itself.
pub data Matches : List ℕ → List ℕ → Type 0 where
  done : Matches [] []
  same : {c d : ℕ} {ps s : List ℕ} → c ≢ star → c ≡ d → Matches ps s → Matches (c ∷ ps) (d ∷ s)
  skip : {c : ℕ} {ps s : List ℕ} → c ≡ star → Matches ps s → Matches (c ∷ ps) s
  eat : {c d : ℕ} {ps s : List ℕ} → c ≡ star → Matches (c ∷ ps) s → Matches (c ∷ ps) (d ∷ s)

only_stars_sound : (ps : List ℕ) → only_stars ps ≡ true → Matches ps []
unfolding only_stars
only_stars_sound [] h = done
only_stars_sound (c ∷ ps) h = elim (Bool-cases (c == star)) [
  | inl y ↦ skip (ground arith) (only_stars_sound ps (rw y at h))
  | inr n ↦ absurd (ground arith)
]

star-Matches_all : (c : ℕ) (s : List ℕ) → c ≡ star → Matches (c ∷ []) s
star-Matches_all c [] e = skip e done
star-Matches_all c (d ∷ s) e = eat e (star-Matches_all c s e)

some_tail_sound :
    (c : ℕ) (ps : List ℕ)
    → c ≡ star
    → ((s : List ℕ) → matches ps s ≡ true → Matches ps s)
    → (s : List ℕ) → some_tail (matches ps) s ≡ true
    → Matches (c ∷ ps) s
unfolding some_tail
some_tail_sound c ps e sound [] h = cc
some_tail_sound c ps e sound (d ∷ s) h = elim (Bool-cases (matches ps (d ∷ s))) [
  | inl y ↦ skip e (sound (d ∷ s) y)
  | inr n ↦ eat e (some_tail_sound c ps e sound s (rw n at h))
]

after_star_sound :
    (c : ℕ) (ps s : List ℕ)
    → c ≡ star
    → ((s : List ℕ) → matches ps s ≡ true → Matches ps s)
    → (if is_empty ps then true else some_tail (matches ps) s) ≡ true
    → Matches (c ∷ ps) s
after_star_sound c [] s e sound h = star-Matches_all c s e
after_star_sound c (p ∷ ps) s e sound h = some_tail_sound c (p ∷ ps) e sound s h

matches_sound : (ps s : List ℕ) → matches ps s ≡ true → Matches ps s
unfolding matches
matches_sound [] [] h = done
matches_sound [] (d ∷ s) h = cc
matches_sound (c ∷ ps) [] h = only_stars_sound (c ∷ ps) h
matches_sound (c ∷ ps) (d ∷ s) h = elim (Bool-cases (c == star)) [
  | inl y ↦ after_star_sound c ps (d ∷ s) (ground arith) (λ t. matches_sound ps t) (rw y at h)
  | inr n ↦ elim (Bool-cases (c == d)) [
    | inl y ↦ same (ground arith) (ground arith) (matches_sound ps s (ground arith))
    | inr k ↦ absurd (ground arith)
  ]
]

stars_match :
    (ps : List ℕ) (d : ℕ) (s : List ℕ)
    → only_stars ps ≡ true
    → is_empty ps ≡ false
    → matches ps (d ∷ s) ≡ true
unfolding only_stars matches some_tail
stars_match [] d s h e = cc
stars_match (c ∷ []) d s h e = ground arith
stars_match (c ∷ p ∷ ps) d s h e = ground (arith, stars_match (p ∷ ps) d s (ground arith) refl)

skip_complete : (c : ℕ) (ps s : List ℕ) → c ≡ star → matches ps s ≡ true → matches (c ∷ ps) s ≡ true
unfolding matches some_tail only_stars
skip_complete c [] [] e h = ground arith
skip_complete c (p ∷ ps) [] e h = ground arith
skip_complete c [] (d ∷ s) e h = ground arith
skip_complete c (p ∷ ps) (d ∷ s) e h = let k = (==_self star) in rw (e, k, h)

matches-star :
    (c p d : ℕ) (ps s : List ℕ)
    → c ≡ star
    → matches (c ∷ p ∷ ps) (d ∷ s) ≡ some_tail (matches (p ∷ ps)) (d ∷ s)
unfolding matches
matches-star c p d ps s e = let y : (c == star) ≡ true = ground arith in rw y

some_tail_later :
    (f : List ℕ → Bool) (d : ℕ) (s : List ℕ) → some_tail f s ≡ true → some_tail f (d ∷ s) ≡ true
unfolding some_tail
some_tail_later f d s h = elim (Bool-cases (f (d ∷ s))) [ inl y ↦ rw y | inr n ↦ rw n h ]

some_tail_now :
    (f : List ℕ → Bool) (d : ℕ) (s : List ℕ) → f (d ∷ s) ≡ true → some_tail f (d ∷ s) ≡ true
unfolding some_tail
some_tail_now f d s h = rw h

only_stars_tail : (c : ℕ) (ps : List ℕ) → only_stars (c ∷ ps) ≡ true → only_stars ps ≡ true
unfolding only_stars
only_stars_tail c ps h = ground arith

star_takes_all : (c d : ℕ) (s : List ℕ) → c ≡ star → matches (c ∷ []) (d ∷ s) ≡ true
unfolding matches
star_takes_all c d s e = ground arith

star_at_end : (c : ℕ) (ps : List ℕ) → matches (c ∷ ps) [] ≡ only_stars (c ∷ ps)
unfolding matches
star_at_end c ps = refl

eat_complete :
    (c d : ℕ) (ps s : List ℕ)
    → c ≡ star
    → matches (c ∷ ps) s ≡ true
    → matches (c ∷ ps) (d ∷ s) ≡ true
eat_complete c d [] s e h = star_takes_all c d s e
eat_complete c d (p ∷ ps) [] e h =
    let stars = only_stars_tail c (p ∷ ps) (rw (star_at_end c (p ∷ ps)) at h) in
    rw (matches-star c p d ps [] e)
      (some_tail_now (matches (p ∷ ps)) d [] (stars_match (p ∷ ps) d [] stars refl))
eat_complete c d (p ∷ ps) (x ∷ s) e h =
    rw (matches-star c p d ps (x ∷ s) e)
      (some_tail_later (matches (p ∷ ps)) d (x ∷ s) (rw (matches-star c p x ps s e) at h))

matches_complete : {ps s : List ℕ} → Matches ps s → matches ps s ≡ true
unfolding matches
matches_complete done = refl
matches_complete (same {c} {d} {ps} {s} n e m) = ground (arith, matches_complete m)
matches_complete (skip {c} {ps} {s} e m) = skip_complete c ps s e (matches_complete m)
matches_complete (eat {c} {d} {ps} {s} e m) = eat_complete c d ps s e (matches_complete m)

-- `match_wildcard` returns true exactly on the strings that the pattern matches.
pub match_wildcard-Matches :
    (pattern str : List ℕ) → (match_wildcard (some pattern) (some str) ≡ true) ↔ Matches pattern str
unfolding match_wildcard
match_wildcard-Matches pattern str = (matches_sound pattern str, λ m. matches_complete m)
