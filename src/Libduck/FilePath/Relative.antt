-- ===== src/Libduck/FilePath/Relative.antt =====
-- Paths made from paths: operator/ and parent of libraries/libduck/Path.h.
use duck_os.Prelude.{
  ◌≡◌, ◌≢◌, ◌⊎◌, refl, sym, ap, ◌∙◌, Bool, true, false, List, [], ◌∷◌, ◌++◌, arith, inl, inr,
}
use mathlib.Core.List.{cons≢nil}
use duck_os.Libduck.FilePath.{
  Text, dots, is_nil, is_dot, is_dots, starts, split, prepend, up, add_part, add_parts, in_order,
  join, or_dot, path_text, build, path, divide, parent, FilePath,
}
use duck_os.Libduck.FilePath.Split.{Slashless, split-append, split-Slashless}
use duck_os.Libduck.FilePath.Clean.{
  Clean, Name, kept-is_nil, add_parts-append, starts-path_text, add_parts-path_text, collected,
  collected-Clean, path_lem,
}

path-path_text :
    (absolute : Bool) (temp : List Text)
    → Clean absolute temp
    → path (path_text absolute temp) ≡ build absolute temp
path-path_text absolute temp k =
    path_lem (path_text absolute temp)
    ∙ rw (starts-path_text absolute temp k, add_parts-path_text absolute temp k) refl

string-build :
    (absolute : Bool) (temp : List Text) → (build absolute temp).string ≡ path_text absolute temp
unfolding build path_text
string-build absolute temp = refl

-- The text of any path, read as a path again, gives the same path: cleaning is idempotent.
pub path-string : (s : Text) → path (path s).string ≡ path s
unfolding build
path-string s =
    rw (path_lem s, string-build (starts s) (collected s))
      (path-path_text (starts s) (collected s) (collected-Clean s))

nil_cases : (s : Text) → (s ≡ []) ⊎ (is_nil s ≡ false)
unfolding is_nil
nil_cases [] = inl refl
nil_cases (c ∷ cs) = inr refl

path_text-not_nil :
    (p : Text) (temp : List Text) → Clean false (p ∷ temp) → path_text false (p ∷ temp) ≢ []
unfolding add_parts add_part split is_nil
path_text-not_nil p temp k e =
    cons≢nil
      (sym (add_parts-path_text false (p ∷ temp) k) ∙ ap (λ s. add_parts false [] (split s)) e)

is_nil-path_text :
    (absolute : Bool) (temp : List Text)
    → Clean absolute temp
    → is_nil (path_text absolute temp) ≡ false
unfolding path_text is_nil
is_nil-path_text true temp k = refl
is_nil-path_text false [] k = refl
is_nil-path_text false (p ∷ temp) k = elim (nil_cases (path_text false (p ∷ temp))) [
  | inl e ↦ absurd (path_text-not_nil p temp k e)
  | inr e ↦ e
]

starts-append_more : (s x : Text) → is_nil s ≡ false → starts (s ++ x) ≡ starts s
unfolding starts is_nil
starts-append_more [] x h = absurd (ground (arith, h))
starts-append_more (c ∷ cs) x h = refl

-- What `operator/` makes of a path with clean parts and any text.
path-append :
    (absolute : Bool) (temp : List Text) (x : Text)
    → Clean absolute temp
    → path (path_text absolute temp ++ 47 ∷ x) ≡ build absolute (add_parts absolute temp (split x))
path-append absolute temp x k =
    let text : Text = path_text absolute temp in
    let begins : starts (text ++ 47 ∷ x) ≡ absolute =
      starts-append_more text (47 ∷ x) (is_nil-path_text absolute temp k)
      ∙ starts-path_text absolute temp k in
    let parts : add_parts absolute [] (split (text ++ 47 ∷ x)) ≡ add_parts absolute temp (split x) =
      ap (add_parts absolute []) (split-append text x)
      ∙ add_parts-append absolute [] (split text) (split x)
      ∙ ap (λ t. add_parts absolute t (split x)) (add_parts-path_text absolute temp k) in
    path_lem (text ++ 47 ∷ x) ∙ rw (begins, parts) refl

divide-build :
    (absolute : Bool) (temp : List Text) (other : FilePath)
    → Clean absolute temp
    → divide (build absolute temp) other
      ≡ build absolute (add_parts absolute temp (split other.string))
unfolding divide
divide-build absolute temp other k =
    ap (λ x. path (x ++ 47 ∷ other.string)) (string-build absolute temp)
    ∙ path-append absolute temp other.string k

add_part-Name :
    (absolute : Bool) (temp : List Text) (n : Text) → Name n → add_part absolute temp n ≡ n ∷ temp
unfolding add_part
add_part-Name absolute temp n v = simp (v.1, v.2)

add_parts-Name :
    (absolute : Bool) (temp : List Text) (n : Text)
    → Name n
    → add_parts absolute temp (split n) ≡ n ∷ temp
unfolding add_parts
add_parts-Name absolute temp n v =
    ap (add_parts absolute temp) (split-Slashless n v.0) ∙ add_part-Name absolute temp n v

starts-Slashless : (n : Text) → Slashless n → starts n ≡ false
unfolding starts
starts-Slashless [] v = refl
starts-Slashless (c ∷ cs) v = ground (arith, v.0)

-- A name, read as a path, has itself for its text.
path-Name : (n : Text) → Name n → (path n).string ≡ n
unfolding path_text in_order join
path-Name n v =
    rw
      (
        path_lem n,
        string-build (starts n) (collected n),
        starts-Slashless n v.0,
        add_parts-Name false [] n v,
      )
      refl

divide-Name :
    (absolute : Bool) (temp : List Text) (n : Text)
    → Clean absolute temp
    → Name n
    → divide (build absolute temp) (path n) ≡ build absolute (n ∷ temp)
divide-Name absolute temp n k v =
    divide-build absolute temp (path n) k
    ∙ rw (path-Name n v, add_parts-Name absolute temp n v) refl

parent-build :
    (absolute : Bool) (p : Text) (temp : List Text)
    → Clean absolute (p ∷ temp)
    → is_dots p ≡ false
    → parent (build absolute (p ∷ temp)) ≡ build absolute temp
unfolding parent path build path_text split add_parts add_part up is_nil is_dot is_dots starts
    or_dot in_order join prepend
parent-build absolute p temp k v =
    divide-build absolute (p ∷ temp) (path dots) k ∙ ap (build absolute) (simp v)

-- The parent of what operator/ makes of any path and a name (no slash, not empty, not one or two
-- dots) is that path again.
pub parent-divide : (s n : Text) → Name n → parent (divide (path s) (path n)) ≡ path s
parent-divide s n v =
    let k = collected-Clean s in
    let named : Clean (starts s) (n ∷ collected s) =
      (v.0, kept-is_nil n v.1, add_part-Name (starts s) (collected s) n v, k) in
    rw (path_lem s, divide-Name (starts s) (collected s) n k v)
      (parent-build (starts s) n (collected s) named v.2)
