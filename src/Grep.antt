-- ===== src/Grep.antt =====
-- grep.c: the matcher and the loop that reads a file line by line. A string is the list of its
-- characters, without the 0 that ends it.
pub mod Meaning
pub mod Lines
mod Tests
use xv6_public_os_project.Base.{
  ℕ, zero, suc, Bool, true, false, ◌||◌, ◌&&◌, Option, none, some, List, [], ◌∷◌, ◌++◌, ◌==◌,
  if◌then◌else◌, length,
}

abbrev pub is_empty : List ℕ → Bool
is_empty [] = true
is_empty (t ∷ ts) = false

-- The last test of `matchhere`: one character, and `rest` on the text behind it.
unfoldable pub match_one : ℕ → (List ℕ → Bool) → List ℕ → Bool
match_one c rest [] = false
match_one c rest (t ∷ ts) = (c == 46 || c == t) && rest ts

-- `matchstar`, with `rest` for `matchhere` of the expression behind the star.
unfoldable pub matchstar : ℕ → (List ℕ → Bool) → List ℕ → Bool
matchstar c rest [] = rest []
matchstar c rest (t ∷ ts) = rest (t ∷ ts) || ((t == c || c == 46) && matchstar c rest ts)

unfoldable pub matchhere : List ℕ → List ℕ → Bool
matchhere [] = λ text. true
matchhere (c ∷ []) = λ text. if c == 36 then is_empty text else match_one c (λ t. true) text
matchhere (c ∷ d ∷ re) =
    let starred = matchhere re in
    let next = matchhere (d ∷ re) in
    λ text. if d == 42 then matchstar c starred text else match_one c next text

-- The loop of `match`: at each place of the text, the empty one at its end too.
unfoldable pub match_any : (List ℕ → Bool) → List ℕ → Bool
match_any here [] = here []
match_any here (t ∷ ts) = here (t ∷ ts) || match_any here ts

unfoldable pub match : List ℕ → List ℕ → Bool
match [] text = match_any (matchhere []) text
match (c ∷ re) text = if c == 94 then matchhere re text else match_any (matchhere (c ∷ re)) text

-- One more character in front of a line.
abbrev pub add_front : ℕ → Option (List ℕ × List ℕ) → Option (List ℕ × List ℕ)
add_front c none = none
add_front c (some (line, rest)) = some (c ∷ line, rest)

-- `strchr(p, '\n')`, in a buffer that ends in a 0: the line, and what stands behind the newline.
unfoldable pub take_line : List ℕ → Option (List ℕ × List ℕ)
take_line [] = none
take_line (c ∷ cs) =
    let rest = take_line cs in
    if c == 10 then some ([], cs) else if c == 0 then none else add_front c rest

-- The inner loop of `grep`, with `fuel` rounds left: what it writes, and what it leaves from `p` on.
unfoldable pub grep_lines : ℕ → List ℕ → List ℕ → List ℕ × List ℕ
grep_lines zero re p = ([], p)
grep_lines (suc fuel) re p = elim (take_line p) [
  | none ↦ ([], p)
  | some (line, rest) ↦
      let (out, left) = grep_lines fuel re rest in
      ((if match re line then line ++ 10 ∷ [] else []) ++ out, left)
]

-- One round of the outer loop, from what is kept of the buffer and what `read` puts behind it.
-- Every line takes one byte at least, so that there are no more rounds than bytes.
unfoldable pub grep_round : List ℕ → List ℕ → List ℕ → List ℕ × List ℕ
grep_round re kept chunk =
    let buf = kept ++ chunk in
    let (out, p) = grep_lines (length buf) re buf in (out, if length p == length buf then [] else p)

-- `grep` on a file from which the reads return these chunks.
unfoldable pub grep : List ℕ → List ℕ → List (List ℕ) → List ℕ
grep re kept [] = []
grep re kept (chunk ∷ chunks) =
    let (out, kept') = grep_round re kept chunk in out ++ grep re kept' chunks
