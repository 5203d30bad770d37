-- ===== src/Memory/BuddyZone/Rewired.antt =====
-- What `remove_from_freelist` of kernel/memory/BuddyZone.cpp does to each page.
use duck_os.Prelude.{
  ℕ, ◌≡◌, ◌≢◌, refl, ap, ◌∙◌, inl, inr, arith, Bool-cases, Bool, true, false, ◌==◌, if◌then◌else◌,
  Option, none, some,
}
use duck_os.Memory.BuddyZone.{
  PageLinks, Pages, get_block, put_block, set_prev, set_next, is_none, is_block, unlink,
}

abbrev behind_next : Option ℕ → Option ℕ → Pages → Pages
behind_next n to p = if is_none n then p else set_prev n to p

abbrev behind_prev : Option ℕ → Option ℕ → Pages → Pages
behind_prev n to p = if is_none n then p else set_next n to p

behind_next-at :
    (n to : Option ℕ) (p : Pages) (y : ℕ)
    → (behind_next n to p).at y
      ≡ record (p.at y) { prev = if is_block y n then to else (p.at y).prev }
unfolding put_block get_block
behind_next-at none to p y = refl
behind_next-at (some x) to p y = elim (Bool-cases (x == y)) [
  | inl e ↦
      let same : x ≡ y = ground (arith, e) in
      let test : (y == x) ≡ true = ground (arith, e) in
      rw (e, test) (ap (λ z. record (p.at z) { prev = to }) same)
  | inr e ↦ let test : (y == x) ≡ false = ground (arith, e) in rw (e, test) refl
]

behind_prev-at :
    (n to : Option ℕ) (p : Pages) (y : ℕ)
    → (behind_prev n to p).at y
      ≡ record (p.at y) { next = if is_block y n then to else (p.at y).next }
unfolding put_block get_block
behind_prev-at none to p y = refl
behind_prev-at (some x) to p y = elim (Bool-cases (x == y)) [
  | inl e ↦
      let same : x ≡ y = ground (arith, e) in
      let test : (y == x) ≡ true = ground (arith, e) in
      rw (e, test) (ap (λ z. record (p.at z) { next = to }) same)
  | inr e ↦ let test : (y == x) ≡ false = ground (arith, e) in rw (e, test) refl
]

pub is_block-other : (y : ℕ) (o : Option ℕ) → o ≢ some y → is_block y o ≡ false
is_block-other y none h = refl
is_block-other y (some x) h = elim (Bool-cases (x == y)) [
  | inl e ↦ let same : x ≡ y = ground (arith, e) in absurd (h (ap some same))
  | inr e ↦ e
]

pub is_block_self : (y : ℕ) → is_block y (some y) ≡ true
is_block_self y = ground arith

-- The links of a page that may stand before and behind another.
abbrev past : Bool → Bool → PageLinks → PageLinks → PageLinks
past is_before is_behind links page = record {
  next = if is_before then links.next else page.next;
  prev = if is_behind then links.prev else page.prev;
}

-- The neighbours of a block that is not its own neighbour point past it.
pub unlink-at :
    (m : ℕ) (p : Pages) (y : ℕ)
    → (p.at m).next ≢ some m
    → (unlink m p).at y ≡ record {
      next = if is_block y (p.at m).prev then (p.at m).next else (p.at y).next;
      prev = if is_block y (p.at m).next then (p.at m).prev else (p.at y).prev;
    }
unfolding unlink
unlink-at m p y h =
    let links : PageLinks = p.at m in
    let behind : Pages = behind_next links.next links.prev p in
    let again : behind.at m ≡ links =
      behind_next-at links.next links.prev p m ∙ rw (is_block-other m links.next h) refl in
    let step : (unlink m p).at y ≡ (behind_prev links.prev links.next behind).at y =
      ap (λ l. (behind_prev l.prev l.next behind).at y) again in
    step
    ∙ behind_prev-at links.prev links.next behind y
    ∙ ap
        (λ (l : PageLinks). record l {
          next = if is_block y links.prev then links.next else l.next;
        })
        (behind_next-at links.next links.prev p y)

pub unlink-next :
    (m : ℕ) (p : Pages) (y : ℕ)
    → (p.at m).next ≢ some m
    → (p.at m).prev ≢ some y
    → ((unlink m p).at y).next ≡ (p.at y).next
unlink-next m p y h other =
    ap (λ (l : PageLinks). l.next) (unlink-at m p y h)
    ∙ ap (λ b. if b then (p.at m).next else (p.at y).next) (is_block-other y (p.at m).prev other)

pub unlink-prev :
    (m : ℕ) (p : Pages) (y : ℕ)
    → (p.at m).next ≢ some m
    → (p.at m).next ≢ some y
    → ((unlink m p).at y).prev ≡ (p.at y).prev
unlink-prev m p y h other =
    ap (λ (l : PageLinks). l.prev) (unlink-at m p y h)
    ∙ ap (λ b. if b then (p.at m).prev else (p.at y).prev) (is_block-other y (p.at m).next other)

pub unlink-other :
    (m : ℕ) (p : Pages) (y : ℕ)
    → (p.at m).next ≢ some m
    → (p.at m).next ≢ some y
    → (p.at m).prev ≢ some y
    → (unlink m p).at y ≡ p.at y
unlink-other m p y h hn hp =
    unlink-at m p y h
    ∙ ap (λ a. past a (is_block y (p.at m).next) (p.at m) (p.at y))
        (is_block-other y (p.at m).prev hp)
    ∙ ap (λ b. past false b (p.at m) (p.at y)) (is_block-other y (p.at m).next hn)
