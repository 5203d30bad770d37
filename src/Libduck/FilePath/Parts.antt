-- ===== src/Libduck/FilePath/Parts.antt =====
-- The parts and the names that `rebuild_parts` of libraries/libduck/Path.cpp finds.
use duck_os.Prelude.{
  ℕ, suc, ◌≡◌, ◌≢◌, ◌⊎◌, refl, sym, ap, subst, ◌∙◌, Bool, true, false, ◌||◌, Option, none, some,
  List, [], ◌∷◌, ◌++◌, arith, length, inl, inr, Bool-cases, ◌==◌, if◌then◌else◌,
}
use mathlib.Core.List.{cons≢nil}
use duck_os.Libduck.FilePath.{
  Text, is_nil, is_dot, is_dots, starts, split, up, add_part, in_order, join, path_text, named,
  or_whole, build, path, cut_last_dot, dot_before, names_at, name_parts, basename,
}
use duck_os.Libduck.FilePath.Split.{split-join}
use duck_os.Libduck.FilePath.Clean.{
  Clean, Name, Solid, in_order-Solid, Solid-AllSlashless, collected, collected-Clean, path_lem,
}

abbrev pub AllNames : List Text → Type 0
AllNames [] = Unit {0}
AllNames (p ∷ ps) = Name p × AllNames ps

AllNames-append : (ps qs : List Text) → AllNames ps → AllNames qs → AllNames (ps ++ qs)
AllNames-append [] qs u v = v
AllNames-append (p ∷ ps) qs u v = (u.0, AllNames-append ps qs u.1 v)

-- A part that was added is not one that is skipped.
added-kept :
    (absolute : Bool) (p : Text) (temp : List Text)
    → add_part absolute temp p ≡ p ∷ temp
    → (is_nil p || is_dot p) ≡ false
unfolding add_part
added-kept absolute p temp h = elim (Bool-cases (is_nil p || is_dot p)) [
  | inl e ↦
      let same : temp ≡ p ∷ temp =
        subst
          (λ b. (if b then temp else if is_dots p then up absolute p temp else p ∷ temp) ≡ p ∷ temp)
          e h in
      let lengths : length temp ≡ suc (length temp) = ap length same in absurd (omega arith)
  | inr e ↦ e
]

-- In an absolute path, no part that was added leads up.
added-is_dots :
    (p : Text) (temp : List Text)
    → AllNames temp
    → (is_nil p || is_dot p) ≡ false
    → add_part true temp p ≡ p ∷ temp
    → is_dots p ≡ false
unfolding add_part up
added-is_dots p [] a k h = elim (Bool-cases (is_dots p)) [
  | inl e ↦ absurd (cons≢nil (sym (sym (simp (k, e)) ∙ h)))
  | inr e ↦ e
]
added-is_dots p (q ∷ temp) a k h = elim (Bool-cases (is_dots p)) [
  | inl e ↦
      let went_up : add_part true (q ∷ temp) p ≡ temp = simp (k, e, a.0.2) in
      let lengths : length temp ≡ suc (suc (length temp)) = ap length (sym went_up ∙ h) in
      absurd (omega arith)
  | inr e ↦ e
]

Clean-AllNames : (temp : List Text) → Clean true temp → AllNames temp
Clean-AllNames [] k = tt
Clean-AllNames (p ∷ temp) k =
    let names = Clean-AllNames temp k.3 in
    let kept = added-kept true p temp k.2 in
    ((k.0, kept, added-is_dots p temp names kept k.2), names)

in_order-AllNames : (temp : List Text) → AllNames temp → AllNames (in_order temp)
unfolding in_order
in_order-AllNames [] v = tt
in_order-AllNames (p ∷ temp) v =
    AllNames-append (in_order temp) (p ∷ []) (in_order-AllNames temp v.1) (v.0, tt)

named-Solid : (ps : List Text) → Solid ps → named ps ≡ ps
unfolding named
named-Solid [] v = refl
named-Solid (p ∷ ps) v = rw v.1 (ap (◌∷◌ p) (named-Solid ps v.2))

named-split : (ps : List Text) → Solid ps → named (split (join ps)) ≡ ps
unfolding named split join is_nil
named-split [] v = refl
named-split (p ∷ ps) v =
    ap named (split-join p ps (Solid-AllSlashless (p ∷ ps) v)) ∙ named-Solid (p ∷ ps) v

parts-build :
    (temp : List Text)
    → Clean true temp
    → (build true temp).parts ≡ or_whole (path_text true temp) (in_order temp)
unfolding build path_text named split is_nil
parts-build temp k =
    ap (or_whole (path_text true temp)) (named-split (in_order temp) (in_order-Solid true temp k))

or_whole-AllNames :
    (text p : Text) (ps : List Text)
    → AllNames (ps ++ p ∷ [])
    → AllNames (or_whole text (ps ++ p ∷ []))
or_whole-AllNames text p [] v = v
or_whole-AllNames text p (q ∷ ps) v = v

build-AllNames :
    (temp : List Text)
    → Clean true temp
    → AllNames (build true temp).parts ⊎ ((build true temp).parts ≡ (47 ∷ []) ∷ [])
unfolding build path_text named split is_nil in_order join
build-AllNames [] k = inr refl
build-AllNames (p ∷ temp) k = inl (
    rw (parts-build (p ∷ temp) k) (
      or_whole-AllNames (path_text true (p ∷ temp)) p (in_order temp)
        (in_order-AllNames (p ∷ temp) (Clean-AllNames (p ∷ temp) k))))

abbrev pub Dotless : Text → Type 0
Dotless [] = Unit {0}
Dotless (c ∷ cs) = (c ≢ 46) × Dotless cs

-- What a cut at the last dot of a text is.
CutAt : Text → Option (Text × Text) → Type 0
CutAt s none = Dotless s
CutAt s (some (before, behind)) = (s ≡ before ++ 46 ∷ behind) × Dotless behind

dot_before-CutAt :
    (c : ℕ) (cs : Text) (cut : Option (Text × Text))
    → CutAt cs cut
    → CutAt (c ∷ cs) (dot_before c cs cut)
unfolding CutAt
dot_before-CutAt c cs none v = elim (Bool-cases (c == 46)) [
  | inl e ↦ let is_46 : c ≡ 46 = ground (arith, e) in rw e (ap (λ d. d ∷ cs) is_46, v)
  | inr e ↦ rw e (ground (arith, e), v)
]
dot_before-CutAt c cs (some (before, behind)) v = (ap (◌∷◌ c) v.0, v.1)

cut_last_dot-CutAt : (s : Text) → CutAt s (cut_last_dot s)
unfolding CutAt cut_last_dot
cut_last_dot-CutAt [] = tt
cut_last_dot-CutAt (c ∷ cs) = dot_before-CutAt c cs (cut_last_dot cs) (cut_last_dot-CutAt cs)

-- A basename that has no extension: no dot, its last dot at its start, or its last dot at its end.
abbrev pub Undivided : Text → Type 0
Undivided base =
    Dotless base
    ⊎ ((rest : Text) × (base ≡ 46 ∷ rest) × Dotless rest)
    ⊎ ((before : Text) × (base ≡ before ++ 46 ∷ []))

-- A filename with its extension, or without one.
abbrev pub NamesOf : Text → Text × Text → Type 0
NamesOf base (filename, extension) =
    ((base ≡ filename ++ 46 ∷ extension)
      × Dotless extension
      × (is_nil filename ≡ false)
      × (is_nil extension ≡ false))
    ⊎ ((filename ≡ base) × (extension ≡ []) × Undivided base)

names_at-NamesOf :
    (base : Text) (cut : Option (Text × Text)) → CutAt base cut → NamesOf base (names_at base cut)
unfolding CutAt is_nil
names_at-NamesOf base none v = inr (refl, refl, inl v)
names_at-NamesOf base (some ([], behind)) v = inr (refl, refl, inr (inl (behind, v.0, v.1)))
names_at-NamesOf base (some (c ∷ before, [])) v = inr (refl, refl, inr (inr (c ∷ before, v.0)))
names_at-NamesOf base (some (c ∷ before, d ∷ behind)) v = inl (v.0, v.1, refl, refl)

name_parts-NamesOf : (base : Text) → NamesOf base (name_parts base)
unfolding name_parts
name_parts-NamesOf base = names_at-NamesOf base (cut_last_dot base) (cut_last_dot-CutAt base)

build-NamesOf :
    (absolute : Bool) (temp : List Text)
    → let built = build absolute temp in NamesOf (basename built) (built.filename, built.extension)
unfolding build name_parts basename
build-NamesOf absolute temp = name_parts-NamesOf (basename (build absolute temp))

-- The parts of a path from the root are names, so none leads up or stays, or there is one part,
-- the slash of the root; its basename is the filename, a dot and the extension, neither empty and
-- the extension without a dot, or it is the filename alone, there is no extension, and the
-- basename has no dot or its last dot is its first character or its last one.
pub path-AllNames :
    (s : Text)
    → starts s ≡ true
    → (AllNames (path s).parts ⊎ ((path s).parts ≡ (47 ∷ []) ∷ []))
      × NamesOf (basename (path s)) ((path s).filename, (path s).extension)
path-AllNames s h =
    let clean : Clean true (collected s) =
      subst (λ b. Clean b (collected s)) h (collected-Clean s) in
    let rooted : path s ≡ build true (collected s) =
      path_lem s ∙ ap (λ b. build b (collected s)) h in
    rw rooted (build-AllNames (collected s) clean, build-NamesOf true (collected s))
