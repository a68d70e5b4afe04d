-- ===== src/Grep/Meaning.antt =====
-- What a regular expression of `match` means, and that `match` decides it.
use xv6_public_os_project.Grep.{is_empty, match_one, matchstar, matchhere, match_any, match}
use xv6_public_os_project.Base.{
  ℕ, ◌≡◌, ◌≢◌, refl, ap, ◌⊎◌, inl, inr, ◌↔◌, Bool, true, List, [], ◌∷◌, ◌++◌, ◌==◌, if◌then◌else◌,
  arith, Bool-cases, All,
}

pub data Item : Type 0 where
  one : ℕ → Item
  many : ℕ → Item
  at_end : Item

-- The items that an expression is written with.
abbrev pub items : List ℕ → List Item
items [] = []
items (c ∷ []) = (if c == 36 then at_end else one c) ∷ []
items (c ∷ d ∷ re) = if d == 42 then many c ∷ items re else one c ∷ items (d ∷ re)

abbrev pub Fits : ℕ → ℕ → Type 0
Fits c t = (c ≡ 46) ⊎ (c ≡ t)

-- The items take a first part of the text.
abbrev pub Takes : List Item → List ℕ → Type 0
Takes [] text = Unit
Takes (one c ∷ is) text = (t : ℕ) × (rest : List ℕ) × (text ≡ t ∷ rest) × Fits c t × Takes is rest
Takes (many c ∷ is) text =
    (ts : List ℕ) × (rest : List ℕ) × (text ≡ ts ++ rest) × All (Fits c) ts × Takes is rest
Takes (at_end ∷ is) text = text ≡ []

-- A part of the text from some place on is taken, or the first part after a caret.
abbrev pub Found : List Item → List ℕ → Type 0
Found is text = (before : List ℕ) × (rest : List ℕ) × (text ≡ before ++ rest) × Takes is rest

abbrev pub Means : List ℕ → List ℕ → Type 0
Means [] text = Found [] text
Means (c ∷ re) text = ((c ≡ 94) × Takes (items re) text) ⊎ ((c ≢ 94) × Found (items (c ∷ re)) text)

-- A test that decides what some items take.
abbrev Decides : (List ℕ → Bool) → List Item → Type 0
Decides f is = (text : List ℕ) → (f text ≡ true) ↔ Takes is text

match_one-Decides :
    (c : ℕ) (f : List ℕ → Bool) (is : List Item)
    → Decides f is
    → Decides (match_one c f) (one c ∷ is)
unfolding match_one
match_one-Decides c f is d [] = (λ e. ground arith, λ (t, rest, e, fit, h). ground arith)
match_one-Decides c f is d (t ∷ ts) = (
  λ e. (t, ts, refl, ground arith, (d ts).0 (ground arith)),
  λ (u, rest, e, fit, h). ground (arith, (d rest).1 h),
)

-- The characters that a star takes may be any number of those that fit.
matchstar-take :
    (c : ℕ) (f : List ℕ → Bool) (ts rest text : List ℕ)
    → text ≡ ts ++ rest
    → All (Fits c) ts
    → f rest ≡ true
    → matchstar c f text ≡ true
unfolding matchstar
matchstar-take c f [] [] text e fit h = rw e h
matchstar-take c f [] (r ∷ rest) text e fit h = rw e (ground arith)
matchstar-take c f (t ∷ ts) rest text e fit h =
    rw e (ground (arith, matchstar-take c f ts rest (ts ++ rest) refl fit.1 h))

matchstar-Decides :
    (c : ℕ) (f : List ℕ → Bool) (is : List Item)
    → Decides f is
    → Decides (matchstar c f) (many c ∷ is)
unfolding matchstar
matchstar-Decides c f is d text =
    (to text, λ (ts, rest, e, fit, h). matchstar-take c f ts rest text e fit ((d rest).1 h))
  where
    to : (text : List ℕ) → matchstar c f text ≡ true → Takes (many c ∷ is) text
    to [] e = ([], [], refl, tt, (d []).0 e)
    to (t ∷ ts) e = elim (Bool-cases (f (t ∷ ts))) [
      | inl y ↦ ([], t ∷ ts, refl, tt, (d (t ∷ ts)).0 y)
      | inr y ↦
          let (us, rest, e', fit, h) = to ts (ground arith) in
          (t ∷ us, rest, ap (λ (l : List ℕ). t ∷ l) e', (ground arith, fit), h)
    ]

matchhere-Decides : (re : List ℕ) → Decides (matchhere re) (items re)
unfolding matchhere
matchhere-Decides [] text = (λ e. tt, λ h. refl)
matchhere-Decides (c ∷ []) text = elim (Bool-cases (c == 36)) [
  | inl e ↦ rw e (empty_iff text)
  | inr e ↦ rw e (match_one-Decides c (λ t. true) [] (λ t. (λ e. tt, λ h. refl)) text)
]
  where
    empty_iff : (text : List ℕ) → (is_empty text ≡ true) ↔ (text ≡ [])
    empty_iff [] = (λ e. refl, λ e. refl)
    empty_iff (t ∷ ts) = (λ e. ground arith, λ e. ground arith)
matchhere-Decides (c ∷ d ∷ re) text =
    let starred = matchhere-Decides re in
    let next = matchhere-Decides (d ∷ re) in
    elim (Bool-cases (d == 42)) [
      | inl e ↦ rw e (matchstar-Decides c (matchhere re) (items re) starred text)
      | inr e ↦ rw e (match_one-Decides c (matchhere (d ∷ re)) (items (d ∷ re)) next text)
    ]

match_any-Found :
    (f : List ℕ → Bool) (is : List Item)
    → Decides f is
    → (text : List ℕ) → (match_any f text ≡ true) ↔ Found is text
unfolding match_any
match_any-Found f is d text =
    (to text, λ (before, rest, e, h). from before rest text e ((d rest).1 h))
  where
    to : (text : List ℕ) → match_any f text ≡ true → Found is text
    to [] e = ([], [], refl, (d []).0 e)
    to (t ∷ ts) e = elim (Bool-cases (f (t ∷ ts))) [
      | inl y ↦ ([], t ∷ ts, refl, (d (t ∷ ts)).0 y)
      | inr y ↦
          let (before, rest, e', h) = to ts (ground arith) in
          (t ∷ before, rest, ap (λ (l : List ℕ). t ∷ l) e', h)
    ]

    from :
        (before rest text : List ℕ)
        → text ≡ before ++ rest
        → f rest ≡ true
        → match_any f text ≡ true
    from [] [] text e h = rw e h
    from [] (r ∷ rest) text e h = rw e (ground arith)
    from (b ∷ before) rest text e h =
        rw e (ground (arith, from before rest (before ++ rest) refl h))

-- `match` finds exactly the texts that the expression means: some part of the text, or with a
-- leading caret a first part, is taken by the expression's characters, where a dot takes any
-- character, a star any number of what stands in front of it, and a dollar sign at the end the end.
pub match-Means : (re text : List ℕ) → (match re text ≡ true) ↔ Means re text
unfolding match
match-Means [] text = match_any-Found (matchhere []) [] (matchhere-Decides []) text
match-Means (c ∷ re) text = elim (Bool-cases (c == 94)) [
  | inl e ↦
      let at_caret : c ≡ 94 = ground arith in
      rw e (
        λ h. inl (at_caret, (matchhere-Decides re text).0 h),
        λ h. elim h [ inl m ↦ (matchhere-Decides re text).1 m.1 | inr m ↦ absurd (m.0 at_caret) ],
      )
  | inr e ↦
      let no_caret : c ≢ 94 = λ q. ground arith in
      let m =
        match_any-Found (matchhere (c ∷ re)) (items (c ∷ re)) (matchhere-Decides (c ∷ re)) text in
      rw e (
        λ h. inr (no_caret, m.0 h),
        λ h. elim h [ inl t ↦ absurd (no_caret t.0) | inr t ↦ m.1 t.1 ],
      )
]
