-- ===== src/Grep/Lines.antt =====
-- The loop of `grep` against the lines of the whole file.
use xv6_public_os_project.Grep.{match, add_front, take_line, grep_lines, grep_round, grep}
use xv6_public_os_project.Base.{
  ℕ, zero, suc, ◌+◌, ◌≤◌, ◌<◌, ◌≡◌, ◌≢◌, refl, ap, sym, ◌∙◌, inl, inr, true, false, Option, none,
  some, List, [], ◌∷◌, ◌++◌, ◌==◌, if◌then◌else◌, length, length-append, arith, Bool-cases, All,
  contains, ==_refl,
}
use mathlib.Core.List.{append_assoc, append-nil}

-- The lines of a text that end in a newline, where `line` has been read of the first, and what
-- stands behind the last newline.
abbrev pub lines_from : List ℕ → List ℕ → List (List ℕ)
lines_from line [] = []
lines_from line (c ∷ cs) =
    if c == 10 then line ∷ lines_from [] cs else lines_from (line ++ c ∷ []) cs

abbrev pub tail_from : List ℕ → List ℕ → List ℕ
tail_from line [] = line
tail_from line (c ∷ cs) = if c == 10 then tail_from [] cs else tail_from (line ++ c ∷ []) cs

-- The lines that match, each with its newline.
abbrev pub matching : List ℕ → List (List ℕ) → List ℕ
matching re [] = []
matching re (line ∷ ls) = (if match re line then line ++ 10 ∷ [] else []) ++ matching re ls

abbrev pub joined : List (List ℕ) → List ℕ
joined [] = []
joined (xs ∷ xss) = xs ++ joined xss

-- What `take_line` promises of a text without a 0.
abbrev Split : List ℕ → List ℕ → Option (List ℕ × List ℕ) → Type 0
Split line p none = (lines_from line p ≡ []) × (tail_from line p ≡ line ++ p) × All (λ c. c ≢ 10) p
Split line p (some (l, rest)) =
    (lines_from line p ≡ (line ++ l) ∷ lines_from [] rest)
    × (tail_from line p ≡ tail_from [] rest)
    × (length rest < length p)
    × All (λ c. c ≢ 0) rest

add_front-Split :
    (line : List ℕ) (c : ℕ) (cs : List ℕ) (o : Option (List ℕ × List ℕ))
    → (c == 10) ≡ false
    → Split (line ++ c ∷ []) cs o
    → Split line (c ∷ cs) (add_front c o)
add_front-Split line c cs none e h =
    (rw e h.0, rw e (h.1 ∙ append_assoc line (c ∷ []) cs), (λ q. ground arith, h.2))
add_front-Split line c cs (some (l, rest)) e h = (
  rw e (h.0 ∙ ap (λ (x : List ℕ). x ∷ lines_from [] rest) (append_assoc line (c ∷ []) l)),
  rw e h.1,
  omega (arith, h.2),
  h.3,
)

take_line-Split : (line p : List ℕ) → All (λ c. c ≢ 0) p → Split line p (take_line p)
unfolding take_line
take_line-Split line [] nz = (refl, sym (append-nil line), tt)
take_line-Split line (c ∷ cs) nz = elim (Bool-cases (c == 10)) [
  | inl e ↦
      let ls : lines_from line (c ∷ cs) ≡ line ∷ lines_from [] cs = rw e refl in
      let rest : tail_from line (c ∷ cs) ≡ tail_from [] cs = rw e refl in
      rw e (
        ls ∙ ap (λ (x : List ℕ). x ∷ lines_from [] cs) (sym (append-nil line)),
        rest,
        omega arith,
        nz.1,
      )
  | inr e ↦
      let nonzero : (c == 0) ≡ false = ground arith in
      rw (e, nonzero)
        (add_front-Split line c cs (take_line cs) e (take_line-Split (line ++ c ∷ []) cs nz.1))
]

-- What the inner loop writes and leaves, with enough fuel.
grep_lines_lem :
    (fuel : ℕ) (re p : List ℕ)
    → length p ≤ fuel
    → All (λ c. c ≢ 0) p
    → grep_lines fuel re p ≡ (matching re (lines_from [] p), tail_from [] p)
unfolding grep_lines
grep_lines_lem zero re [] h nz = refl
grep_lines_lem zero re (c ∷ cs) h nz = absurd (omega arith)
grep_lines_lem (suc fuel) re p h nz =
    go (take_line p) refl (take_line-Split [] p nz) (grep_lines_lem fuel re)
  where
    go :
        (o : Option (List ℕ × List ℕ))
        → take_line p ≡ o
        → Split [] p o
        → ((q : List ℕ)
            → length q ≤ fuel
            → All (λ c. c ≢ 0) q
            → grep_lines fuel re q ≡ (matching re (lines_from [] q), tail_from [] q))
        → grep_lines (suc fuel) re p ≡ (matching re (lines_from [] p), tail_from [] p)
    go none e s later = rw (e, s.0, s.1, grep_lines) refl
    go (some (line, rest)) e s later =
        let l = later rest (omega (arith, s.2)) s.3 in
        rw
          (
            s.0,
            s.1,
            grep_lines,
            e,
            ap (λ (x : List ℕ × List ℕ). x.0) l,
            ap (λ (x : List ℕ × List ℕ). x.1) l,
          )
          refl

lines_from-append :
    (line xs ys : List ℕ)
    → lines_from line (xs ++ ys) ≡ lines_from line xs ++ lines_from (tail_from line xs) ys
lines_from-append line [] ys = refl
lines_from-append line (x ∷ xs) ys = elim (Bool-cases (x == 10)) [
  | inl e ↦ rw e (ap (λ (l : List (List ℕ)). line ∷ l) (lines_from-append [] xs ys))
  | inr e ↦ rw e (lines_from-append (line ++ x ∷ []) xs ys)
]

-- A text without a newline in front of another.
no_lines :
    (line xs ys : List ℕ)
    → All (λ c. c ≢ 10) xs
    → (lines_from line (xs ++ ys) ≡ lines_from (line ++ xs) ys)
      × (tail_from line (xs ++ ys) ≡ tail_from (line ++ xs) ys)
no_lines line [] ys h = rw append-nil (refl, refl)
no_lines line (x ∷ xs) ys h =
    let e : (x == 10) ≡ false = ground arith in
    rw (e, ← append_assoc line (x ∷ []) xs) (no_lines (line ++ x ∷ []) xs ys h.1)

All-snoc : (P : ℕ → Type 0) (xs : List ℕ) (x : ℕ) → All P xs → P x → All P (xs ++ x ∷ [])
All-snoc P [] x h p = (p, tt)
All-snoc P (y ∷ ys) x h p = (h.0, All-snoc P ys x h.1 p)

All-append : (P : ℕ → Type 0) (xs ys : List ℕ) → All P xs → All P ys → All P (xs ++ ys)
All-append P [] ys h k = k
All-append P (x ∷ xs) ys h k = (h.0, All-append P xs ys h.1 k)

-- What is left of a text has no newline, and no 0 if the text has none.
tail_from-All :
    (line xs : List ℕ)
    → All (λ c. c ≢ 10) line
    → All (λ c. c ≢ 0) line
    → All (λ c. c ≢ 0) xs
    → All (λ c. c ≢ 10) (tail_from line xs) × All (λ c. c ≢ 0) (tail_from line xs)
tail_from-All line [] h k nz = (h, k)
tail_from-All line (x ∷ xs) h k nz = elim (Bool-cases (x == 10)) [
  | inl e ↦ rw e (tail_from-All [] xs tt tt nz.1)
  | inr e ↦ rw e (
      tail_from-All (line ++ x ∷ []) xs (All-snoc (λ c. c ≢ 10) line x h (λ q. ground arith))
        (All-snoc (λ c. c ≢ 0) line x k nz.0) nz.1)
]

length-tail_from : (line xs : List ℕ) → length (tail_from line xs) ≤ length line + length xs
length-tail_from line [] = omega arith
length-tail_from line (x ∷ xs) = elim (Bool-cases (x == 10)) [
  | inl e ↦ rw e (omega (arith, length-tail_from [] xs))
  | inr e ↦ rw e (omega (arith, length-tail_from (line ++ x ∷ []) xs, length-append line (x ∷ [])))
]

tail_from_shorter :
    (line xs : List ℕ)
    → contains xs 10 ≡ true
    → length (tail_from line xs) < length line + length xs
tail_from_shorter line [] h = absurd (ground arith)
tail_from_shorter line (x ∷ xs) h = elim (Bool-cases (x == 10)) [
  | inl e ↦ rw e (omega (arith, length-tail_from [] xs))
  | inr e ↦
      let later = tail_from_shorter (line ++ x ∷ []) xs (ground arith) in
      rw e (omega (arith, later, length-append line (x ∷ [])))
]

matching-append :
    (re : List ℕ) (ks ls : List (List ℕ))
    → matching re (ks ++ ls) ≡ matching re ks ++ matching re ls
matching-append re [] ls = refl
matching-append re (k ∷ ks) ls =
    ap (λ (l : List ℕ). (if match re k then k ++ 10 ∷ [] else []) ++ l) (matching-append re ks ls)
    ∙ sym (append_assoc (if match re k then k ++ 10 ∷ [] else []) _ _)

grep_round_lem :
    (re kept chunk : List ℕ)
    → All (λ c. c ≢ 10) kept
    → All (λ c. c ≢ 0) kept
    → All (λ c. c ≢ 0) chunk
    → contains chunk 10 ≡ true
    → grep_round re kept chunk ≡ (matching re (lines_from kept chunk), tail_from kept chunk)
unfolding grep_round
grep_round_lem re kept chunk h k nz newline =
    let buf = kept ++ chunk in
    let l =
      grep_lines_lem (length buf) re buf (omega arith) (All-append (λ c. c ≢ 0) kept chunk k nz) in
    let (ls, rest) = no_lines [] kept chunk h in
    let moved : (length (tail_from kept chunk) == length buf) ≡ false =
      ground (arith, tail_from_shorter kept chunk newline, length-append kept chunk) in
    rw (ap (λ (x : List ℕ × List ℕ). x.0) l, ap (λ (x : List ℕ × List ℕ). x.1) l, ls, rest, moved)
      refl

-- `grep` on a file without 0 bytes, each read of which holds a newline at least (as every read that
-- fills the buffer does where the lines are shorter than it): it writes exactly the lines of the
-- file that match, in order and each with its newline, wherever the reads cut them. What stands
-- behind the last newline of the file is not looked at.
pub grep_lem :
    (re kept : List ℕ) (chunks : List (List ℕ))
    → All (λ c. c ≢ 10) kept
    → All (λ c. c ≢ 0) kept
    → All (λ chunk. All (λ c. c ≢ 0) chunk × (contains chunk 10 ≡ true)) chunks
    → grep re kept chunks ≡ matching re (lines_from kept (joined chunks))
unfolding grep
grep_lem re kept [] h k ok = refl
grep_lem re kept (chunk ∷ chunks) h k ok =
    let r = grep_round_lem re kept chunk h k ok.0.0 ok.0.1 in
    let (h', k') = tail_from-All kept chunk h k ok.0.0 in
    rw
      (
        ap (λ (x : List ℕ × List ℕ). x.0) r,
        ap (λ (x : List ℕ × List ℕ). x.1) r,
        grep_lem re (tail_from kept chunk) chunks h' k' ok.1,
        lines_from-append kept chunk (joined chunks),
        matching-append re (lines_from kept chunk)
            (lines_from (tail_from kept chunk) (joined chunks)),
      )
      refl

-- A read that holds no newline and no 0 is lost, with what the buffer held in front of it, if that
-- holds none either: `grep` keeps nothing of it.
pub grep_round_drops :
    (re kept chunk : List ℕ)
    → All (λ c. c ≢ 10) (kept ++ chunk)
    → All (λ c. c ≢ 0) (kept ++ chunk)
    → grep_round re kept chunk ≡ ([], [])
unfolding grep_round
grep_round_drops re kept chunk h nz =
    let buf = kept ++ chunk in
    let l = grep_lines_lem (length buf) re buf (omega arith) nz in
    let (ls, rest) = no_lines [] buf [] h in
    let none_left : lines_from [] buf ≡ [] = rw append-nil at ls in
    let all_left : tail_from [] buf ≡ buf = rw append-nil at rest in
    rw
      (
        ap (λ (x : List ℕ × List ℕ). x.0) l,
        ap (λ (x : List ℕ × List ℕ). x.1) l,
        none_left,
        all_left,
        ==_refl (length buf),
      )
      refl
