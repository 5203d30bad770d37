-- ===== src/Libduck/FilePath/Clean.antt =====
-- The parts that the constructor of libraries/libduck/Path.cpp keeps.
use duck_os.Prelude.{
  ◌≡◌, refl, sym, ap, ◌∙◌, Bool, true, false, ◌||◌, List, [], ◌∷◌, ◌++◌, append-nil, arith, inl,
  inr, Bool-cases,
}
use duck_os.Libduck.FilePath.{
  Text, is_nil, is_dot, is_dots, starts, split, prepend, up, add_part, add_parts, in_order, join,
  or_dot, path_text, build, path,
}
use duck_os.Libduck.FilePath.Split.{Slashless, AllSlashless, split-AllSlashless, split-join}

-- The name of a file in a directory.
abbrev pub Name : Text → Type 0
Name n = Slashless n × ((is_nil n || is_dot n) ≡ false) × (is_dots n ≡ false)

-- What the constructor collects, the last part first: each part would be added to those before it.
abbrev pub Clean : Bool → List Text → Type 0
Clean absolute [] = Unit {0}
Clean absolute (p ∷ temp) =
    Slashless p × (is_nil p ≡ false) × (add_part absolute temp p ≡ p ∷ temp) × Clean absolute temp

pub kept-is_nil : (p : Text) → (is_nil p || is_dot p) ≡ false → is_nil p ≡ false
unfolding is_nil
kept-is_nil [] h = h
kept-is_nil (c ∷ cs) h = refl

up-Clean :
    (absolute : Bool) (p : Text) (temp : List Text)
    → (is_nil p || is_dot p) ≡ false
    → is_dots p ≡ true
    → Slashless p
    → Clean absolute temp
    → Clean absolute (up absolute p temp)
unfolding up add_part
up-Clean true p [] h d v k = tt
up-Clean false p [] h d v k = (v, kept-is_nil p h, simp (h, d), k)
up-Clean absolute p (q ∷ temp) h d v k = elim (Bool-cases (is_dots q)) [
  | inl e ↦ rw e (v, kept-is_nil p h, simp (h, d, e), k)
  | inr e ↦ rw e k.3
]

add_part-Clean :
    (absolute : Bool) (p : Text) (temp : List Text)
    → Slashless p
    → Clean absolute temp
    → Clean absolute (add_part absolute temp p)
unfolding add_part
add_part-Clean absolute p temp v k = elim (Bool-cases (is_nil p || is_dot p)) [
  | inl e ↦ rw e k
  | inr e ↦ elim (Bool-cases (is_dots p)) [
    | inl d ↦ rw (e, d) (up-Clean absolute p temp e d v k)
    | inr d ↦ rw (e, d) (v, kept-is_nil p e, simp (e, d), k)
  ]
]

pub add_parts-Clean :
    (absolute : Bool) (temp ps : List Text)
    → AllSlashless ps
    → Clean absolute temp
    → Clean absolute (add_parts absolute temp ps)
unfolding add_parts
add_parts-Clean absolute temp [] v k = k
add_parts-Clean absolute temp (p ∷ ps) v k =
    add_parts-Clean absolute (add_part absolute temp p) ps v.1
      (add_part-Clean absolute p temp v.0 k)

pub add_parts-append :
    (absolute : Bool) (temp ps qs : List Text)
    → add_parts absolute temp (ps ++ qs) ≡ add_parts absolute (add_parts absolute temp ps) qs
unfolding add_parts
add_parts-append absolute temp [] qs = refl
add_parts-append absolute temp (p ∷ ps) qs =
    add_parts-append absolute (add_part absolute temp p) ps qs

add_parts-in_order :
    (absolute : Bool) (temp : List Text)
    → Clean absolute temp
    → add_parts absolute [] (in_order temp) ≡ temp
unfolding add_parts in_order
add_parts-in_order absolute [] k = refl
add_parts-in_order absolute (p ∷ temp) k =
    add_parts-append absolute [] (in_order temp) (p ∷ [])
    ∙ ap (λ x. add_part absolute x p) (add_parts-in_order absolute temp k.3)
    ∙ k.2

-- A part that starts a path's text without making it absolute.
abbrev pub Solid : List Text → Type 0
Solid [] = Unit {0}
Solid (p ∷ ps) = Slashless p × (is_nil p ≡ false) × Solid ps

Solid-append : (ps qs : List Text) → Solid ps → Solid qs → Solid (ps ++ qs)
Solid-append [] qs u v = v
Solid-append (p ∷ ps) qs u v = (u.0, u.1, Solid-append ps qs u.2 v)

pub in_order-Solid :
    (absolute : Bool) (temp : List Text) → Clean absolute temp → Solid (in_order temp)
unfolding in_order
in_order-Solid absolute [] k = tt
in_order-Solid absolute (p ∷ temp) k =
    Solid-append (in_order temp) (p ∷ []) (in_order-Solid absolute temp k.3) (k.0, k.1, tt)

pub Solid-AllSlashless : (ps : List Text) → Solid ps → AllSlashless ps
Solid-AllSlashless [] v = tt
Solid-AllSlashless (p ∷ ps) v = (v.0, Solid-AllSlashless ps v.2)

starts-append : (p q : Text) → Slashless p → is_nil p ≡ false → starts (p ++ q) ≡ false
unfolding starts is_nil
starts-append [] q v h = absurd (ground (arith, h))
starts-append (c ∷ cs) q v h = ground (arith, v.0)

starts-join : (ps : List Text) → Solid ps → starts (join ps) ≡ false
unfolding join starts
starts-join [] v = refl
starts-join (p ∷ []) v = rw (sym (append-nil p)) (starts-append p [] v.0 v.1)
starts-join (p ∷ q ∷ ps) v = starts-append p (47 ∷ join (q ∷ ps)) v.0 v.1

pub starts-path_text :
    (absolute : Bool) (temp : List Text)
    → Clean absolute temp
    → starts (path_text absolute temp) ≡ absolute
unfolding path_text starts
starts-path_text true temp k = refl
starts-path_text false [] k = refl
starts-path_text false (p ∷ temp) k =
    starts-join (in_order (p ∷ temp)) (in_order-Solid false (p ∷ temp) k)

add_parts-join :
    (absolute : Bool) (ps : List Text)
    → AllSlashless ps
    → add_parts absolute [] (split (join ps)) ≡ add_parts absolute [] ps
unfolding add_parts add_part split join is_nil
add_parts-join absolute [] v = refl
add_parts-join absolute (p ∷ ps) v = ap (add_parts absolute []) (split-join p ps v)

add_parts-split :
    (absolute : Bool) (temp : List Text)
    → Clean absolute temp
    → add_parts absolute [] (split (join (in_order temp))) ≡ temp
add_parts-split absolute temp k =
    add_parts-join absolute (in_order temp)
      (Solid-AllSlashless (in_order temp) (in_order-Solid absolute temp k))
    ∙ add_parts-in_order absolute temp k

-- The text of clean parts gives these parts again.
pub add_parts-path_text :
    (absolute : Bool) (temp : List Text)
    → Clean absolute temp
    → add_parts absolute [] (split (path_text absolute temp)) ≡ temp
unfolding path_text add_parts add_part split is_nil is_dot prepend
add_parts-path_text true temp k = add_parts-split true temp k
add_parts-path_text false [] k = refl
add_parts-path_text false (p ∷ temp) k = add_parts-split false (p ∷ temp) k

add_parts-or_dot :
    (absolute : Bool) (s : Text)
    → add_parts absolute [] (split (or_dot s)) ≡ add_parts absolute [] (split s)
unfolding add_parts add_part split is_nil is_dot prepend or_dot
add_parts-or_dot absolute [] = refl
add_parts-or_dot absolute (c ∷ cs) = refl

-- What the constructor collects from a text.
abbrev pub collected : Text → List Text
collected s = add_parts (starts s) [] (split s)

pub collected-Clean : (s : Text) → Clean (starts s) (collected s)
collected-Clean s = add_parts-Clean (starts s) [] (split s) (split-AllSlashless s) tt

pub path_lem : (s : Text) → path s ≡ build (starts s) (collected s)
unfolding path
path_lem s = ap (build (starts s)) (add_parts-or_dot (starts s) s)
