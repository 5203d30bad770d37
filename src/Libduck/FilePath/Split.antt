-- ===== src/Libduck/FilePath/Split.antt =====
-- Cutting a text at its slashes and joining the parts (libraries/libduck/Path.cpp).
use duck_os.Prelude.{
  ℕ, ◌<◌, ◌≡◌, ◌≢◌, refl, ap, ◌∙◌, false, List, [], ◌∷◌, ◌++◌, arith, length, inl, inr, Bool-cases,
  ◌==◌,
}
use duck_os.Libduck.FilePath.{Text, split, prepend, join}

abbrev pub Slashless : Text → Type 0
Slashless [] = Unit {0}
Slashless (c ∷ cs) = (c ≢ 47) × Slashless cs

abbrev pub AllSlashless : List Text → Type 0
AllSlashless [] = Unit {0}
AllSlashless (p ∷ ps) = Slashless p × AllSlashless ps

prepend-AllSlashless :
    (c : ℕ) (ps : List Text) → c ≢ 47 → AllSlashless ps → AllSlashless (prepend c ps)
unfolding prepend
prepend-AllSlashless c [] h v = ((h, v), v)
prepend-AllSlashless c (p ∷ ps) h v = ((h, v.0), v.1)

-- No part that is cut off has a slash.
pub split-AllSlashless : (s : Text) → AllSlashless (split s)
unfolding split
split-AllSlashless [] = (tt, tt)
split-AllSlashless (c ∷ cs) = elim (Bool-cases (c == 47)) [
  | inl e ↦ rw e (tt, split-AllSlashless cs)
  | inr e ↦ rw e (prepend-AllSlashless c (split cs) (ground (arith, e)) (split-AllSlashless cs))
]

prepend-length : (c : ℕ) (ps : List Text) → 0 < length (prepend c ps)
unfolding prepend
prepend-length c [] = omega arith
prepend-length c (p ∷ ps) = omega arith

split-length : (s : Text) → 0 < length (split s)
unfolding split
split-length [] = omega arith
split-length (c ∷ cs) = elim (Bool-cases (c == 47)) [
  | inl e ↦ rw e (omega arith)
  | inr e ↦ rw e (prepend-length c (split cs))
]

prepend-append :
    (c : ℕ) (ps qs : List Text) → 0 < length ps → prepend c (ps ++ qs) ≡ prepend c ps ++ qs
unfolding prepend
prepend-append c [] qs h = absurd (omega arith)
prepend-append c (p ∷ ps) qs h = refl

-- The parts of two texts with a slash between them are those of the first and then those of the second.
pub split-append : (a b : Text) → split (a ++ 47 ∷ b) ≡ split a ++ split b
unfolding split
split-append [] b = refl
split-append (c ∷ cs) b = elim (Bool-cases (c == 47)) [
  | inl e ↦ simp e (ap (◌∷◌ []) (split-append cs b))
  | inr e ↦
      simp e (
        ap (prepend c) (split-append cs b)
        ∙ prepend-append c (split cs) (split b) (split-length cs))
]

pub split-Slashless : (p : Text) → Slashless p → split p ≡ p ∷ []
unfolding split prepend
split-Slashless [] v = refl
split-Slashless (c ∷ cs) v =
    let inner : (c == 47) ≡ false = ground (arith, v.0) in rw (inner, split-Slashless cs v.1) refl

pub split-join :
    (p : Text) (ps : List Text) → AllSlashless (p ∷ ps) → split (join (p ∷ ps)) ≡ p ∷ ps
unfolding join
split-join p [] v = split-Slashless p v.0
split-join p (q ∷ ps) v =
    split-append p (join (q ∷ ps)) ∙ rw (split-Slashless p v.0, split-join q ps v.1) refl

pub AllSlashless-append :
    (ps qs : List Text) → AllSlashless ps → AllSlashless qs → AllSlashless (ps ++ qs)
AllSlashless-append [] qs u v = v
AllSlashless-append (p ∷ ps) qs u v = (u.0, AllSlashless-append ps qs u.1 v)
