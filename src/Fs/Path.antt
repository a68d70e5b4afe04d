-- ===== src/Fs/Path.antt =====
-- The paths of fs.c: `skipelem`, and what its calls one after the other take off a path. A path is the
-- bytes in front of its 0, and a name those of the buffer `name` up to its 0, or all 14.
use mathlib.Core.List.{map}
use xv6_public_os_project.Base.{
  ℕ, zero, suc, ◌≤◌, ◌≡◌, inl, inr, refl, ap, sym, ◌∙◌, true, false, Option, none, some, List, [],
  ◌∷◌, ◌==◌, if◌then◌else◌, length, take, arith, Bool-cases,
}

abbrev pub dirsiz : ℕ
dirsiz = 14

-- The loops over slashes.
unfoldable pub drop_slashes : List ℕ → List ℕ
drop_slashes [] = []
drop_slashes (c ∷ cs) = let rest = drop_slashes cs in if c == 47 then rest else c ∷ cs

-- The loop over an element: what it passes, and where it stops.
unfoldable pub element : List ℕ → List ℕ
element [] = []
element (c ∷ cs) = let rest = element cs in if c == 47 then [] else c ∷ rest

unfoldable pub after_element : List ℕ → List ℕ
after_element [] = []
after_element (c ∷ cs) = let rest = after_element cs in if c == 47 then c ∷ cs else rest

-- The next element of the path, and the path behind it; `none` is the null pointer.
unfoldable pub skipelem : List ℕ → Option (List ℕ × List ℕ)
skipelem path = elim (drop_slashes path) [
  | [] ↦ none
  | c ∷ cs ↦ some (take dirsiz (element (c ∷ cs)), drop_slashes (after_element (c ∷ cs)))
]

-- The names that `skipelem` returns when it is called again and again on the path that it left, up to
-- the null pointer. Each takes a byte of the path at least, so that its length is enough fuel.
unfoldable pub skip_all : ℕ → List ℕ → List (List ℕ)
skip_all zero path = []
skip_all (suc fuel) path = elim (skipelem path) [
  | none ↦ []
  | some (name, rest) ↦ name ∷ skip_all fuel rest
]

-- An independent reading of a path, from its end: the piece in front of the first slash, and the
-- pieces behind it that are not empty.
abbrev keep : List ℕ → List (List ℕ) → List (List ℕ)
keep [] ws = ws
keep (c ∷ cs) ws = (c ∷ cs) ∷ ws

pieces : List ℕ → List ℕ × List (List ℕ)
pieces [] = ([], [])
pieces (c ∷ cs) = let (w, ws) = pieces cs in if c == 47 then ([], keep w ws) else (c ∷ w, ws)

-- The pieces of a path between slashes, but the empty ones.
unfoldable pub elements : List ℕ → List (List ℕ)
unfolding pieces
elements path = keep (pieces path).0 (pieces path).1

pieces_slash : (c : ℕ) (cs : List ℕ) → (c == 47) ≡ true → pieces (c ∷ cs) ≡ ([], elements cs)
unfolding pieces elements
pieces_slash c cs e = rw e refl

pieces_plain :
    (c : ℕ) (cs : List ℕ) → (c == 47) ≡ false → pieces (c ∷ cs) ≡ (c ∷ (pieces cs).0, (pieces cs).1)
unfolding pieces
pieces_plain c cs e = rw e refl

element_slash : (c : ℕ) (cs : List ℕ) → (c == 47) ≡ true → element (c ∷ cs) ≡ []
unfolding element
element_slash c cs e = rw e refl

element_plain : (c : ℕ) (cs : List ℕ) → (c == 47) ≡ false → element (c ∷ cs) ≡ c ∷ element cs
unfolding element
element_plain c cs e = rw e refl

after_element_slash : (c : ℕ) (cs : List ℕ) → (c == 47) ≡ true → after_element (c ∷ cs) ≡ c ∷ cs
unfolding after_element
after_element_slash c cs e = rw e refl

after_element_plain :
    (c : ℕ) (cs : List ℕ) → (c == 47) ≡ false → after_element (c ∷ cs) ≡ after_element cs
unfolding after_element
after_element_plain c cs e = rw e refl

drop_slash : (c : ℕ) (cs : List ℕ) → (c == 47) ≡ true → drop_slashes (c ∷ cs) ≡ drop_slashes cs
unfolding drop_slashes
drop_slash c cs e = rw e refl

drop_plain : (c : ℕ) (cs : List ℕ) → (c == 47) ≡ false → drop_slashes (c ∷ cs) ≡ c ∷ cs
unfolding drop_slashes
drop_plain c cs e = rw e refl

elements_slash : (c : ℕ) (cs : List ℕ) → (c == 47) ≡ true → elements (c ∷ cs) ≡ elements cs
unfolding elements
elements_slash c cs e = ap (λ (x : List ℕ × List (List ℕ)). keep x.0 x.1) (pieces_slash c cs e)

pieces-head : (p : List ℕ) → (pieces p).0 ≡ element p
unfolding pieces element
pieces-head [] = refl
pieces-head (c ∷ cs) = elim (Bool-cases (c == 47)) [
  | inl e ↦
      ap (λ (x : List ℕ × List (List ℕ)). x.0) (pieces_slash c cs e) ∙ sym (element_slash c cs e)
  | inr e ↦
      ap (λ (x : List ℕ × List (List ℕ)). x.0) (pieces_plain c cs e)
      ∙ ap (λ (w : List ℕ). c ∷ w) (pieces-head cs)
      ∙ sym (element_plain c cs e)
]

pieces-rest : (p : List ℕ) → (pieces p).1 ≡ elements (after_element p)
unfolding after_element elements pieces
pieces-rest [] = refl
pieces-rest (c ∷ cs) = elim (Bool-cases (c == 47)) [
  | inl e ↦
      ap (λ (x : List ℕ × List (List ℕ)). x.1) (pieces_slash c cs e)
      ∙ sym (elements_slash c cs e)
      ∙ ap elements (sym (after_element_slash c cs e))
  | inr e ↦
      ap (λ (x : List ℕ × List (List ℕ)). x.1) (pieces_plain c cs e)
      ∙ pieces-rest cs
      ∙ ap elements (sym (after_element_plain c cs e))
]

elements-drop_slashes : (p : List ℕ) → elements (drop_slashes p) ≡ elements p
unfolding drop_slashes
elements-drop_slashes [] = refl
elements-drop_slashes (c ∷ cs) = elim (Bool-cases (c == 47)) [
  | inl e ↦ ap elements (drop_slash c cs e) ∙ elements-drop_slashes cs ∙ sym (elements_slash c cs e)
  | inr e ↦ ap elements (drop_plain c cs e)
]

length-drop_slashes : (p : List ℕ) → length (drop_slashes p) ≤ length p
unfolding drop_slashes
length-drop_slashes [] = omega arith
length-drop_slashes (c ∷ cs) = ground (arith, length-drop_slashes cs)

length-after_element : (p : List ℕ) → length (after_element p) ≤ length p
unfolding after_element
length-after_element [] = omega arith
length-after_element (c ∷ cs) = ground (arith, length-after_element cs)

-- The path starts with no slash once `drop_slashes` has run.
drop_slashes-head : (p : List ℕ) (c : ℕ) (cs : List ℕ) → drop_slashes p ≡ c ∷ cs → (c == 47) ≡ false
unfolding drop_slashes
drop_slashes-head [] c cs e = ground arith
drop_slashes-head (b ∷ bs) c cs e = elim (Bool-cases (b == 47)) [
  | inl f ↦ drop_slashes-head bs c cs (rw f at e)
  | inr f ↦ ground arith
]

elements-cons :
    (c : ℕ) (cs : List ℕ)
    → (c == 47) ≡ false
    → elements (c ∷ cs) ≡ element (c ∷ cs) ∷ elements (after_element (c ∷ cs))
unfolding elements
elements-cons c cs e =
    ap (λ (x : List ℕ × List (List ℕ)). keep x.0 x.1) (pieces_plain c cs e)
    ∙ ap (λ (w : List ℕ). (c ∷ w) ∷ (pieces cs).1) (pieces-head cs)
    ∙ ap (λ (ws : List (List ℕ)). (c ∷ element cs) ∷ ws) (pieces-rest cs)
    ∙ ap (λ (w : List ℕ). w ∷ elements (after_element cs)) (sym (element_plain c cs e))
    ∙ ap (λ (r : List ℕ). element (c ∷ cs) ∷ elements r) (sym (after_element_plain c cs e))

skipelem-none : (p : List ℕ) → drop_slashes p ≡ [] → skipelem p ≡ none
unfolding skipelem
skipelem-none p e = rw (e, skipelem) refl

skipelem-some :
    (p : List ℕ) (c : ℕ) (cs : List ℕ)
    → drop_slashes p ≡ c ∷ cs
    → skipelem p ≡ some (take dirsiz (element (c ∷ cs)), drop_slashes (after_element (c ∷ cs)))
unfolding skipelem
skipelem-some p c cs e = rw (e, skipelem) refl

skip_all-none : (fuel : ℕ) (p : List ℕ) → skipelem p ≡ none → skip_all fuel p ≡ []
unfolding skip_all
skip_all-none zero p e = refl
skip_all-none (suc fuel) p e = rw (e, skip_all) refl

skip_all-some :
    (fuel : ℕ) (p name rest : List ℕ)
    → skipelem p ≡ some (name, rest)
    → skip_all (suc fuel) p ≡ name ∷ skip_all fuel rest
unfolding skip_all
skip_all-some fuel p name rest e = rw (e, skip_all) refl

skip_all_go :
    (fuel : ℕ) (path d : List ℕ)
    → drop_slashes path ≡ d
    → length path ≤ fuel
    → skip_all fuel path ≡ map (take dirsiz) (elements path)
unfolding elements pieces
skip_all_go fuel path [] e h =
    skip_all-none fuel path (skipelem-none path e)
    ∙ ap (λ (p : List ℕ). map (take dirsiz) (elements p)) (sym e)
    ∙ ap (map (take dirsiz)) (elements-drop_slashes path)
skip_all_go zero path (c ∷ cs) e h =
    absurd (omega (arith, length-drop_slashes path, ap (length {A = ℕ}) e))
skip_all_go (suc fuel) path (c ∷ cs) e h =
    let plain = drop_slashes-head path c cs e in
    let p = after_element (c ∷ cs) in
    let rest = drop_slashes p in
    let shorter : length rest ≤ fuel = omega (
      arith,
      length-drop_slashes path,
      length-drop_slashes p,
      length-after_element cs,
      ap (length {A = ℕ}) e,
      ap (length {A = ℕ}) (after_element_plain c cs plain),
    ) in
    skip_all-some fuel path (take dirsiz (element (c ∷ cs))) rest (skipelem-some path c cs e)
    ∙ ap (λ (ns : List (List ℕ)). take dirsiz (element (c ∷ cs)) ∷ ns)
        (skip_all_go fuel rest (drop_slashes rest) refl shorter
          ∙ ap (map (take dirsiz)) (elements-drop_slashes p))
    ∙ ap (map (take dirsiz)) (sym (elements-cons c cs plain))
    ∙ ap (λ (q : List ℕ). map (take dirsiz) (elements q)) (sym e)
    ∙ ap (map (take dirsiz)) (elements-drop_slashes path)

-- `skipelem`, called on a path and then again and again on the path that it left, returns the pieces
-- of the path between slashes, but the empty ones, in order and each cut to 14 bytes, and then the
-- null pointer, when the fuel is the path's length or more.
pub skip_all-elements :
    (fuel : ℕ) (path : List ℕ)
    → length path ≤ fuel
    → skip_all fuel path ≡ map (take dirsiz) (elements path)
skip_all-elements fuel path h = skip_all_go fuel path (drop_slashes path) refl h
