-- ===== src/Grep/Tests.antt =====
-- The expression a*b and a file that is read in two pieces.
use xv6_public_os_project.Grep.{match, match_any, matchhere, match_one, matchstar, grep_round, grep}
use xv6_public_os_project.Grep.Meaning.{Means, match-Means}
use xv6_public_os_project.Grep.Lines.{grep_lem, grep_round_drops, matching}
use xv6_public_os_project.Base.{
  ℕ, ◌≡◌, ◌≢◌, contains, refl, ◌↔◌, true, false, List, [], ◌∷◌, All, arith,
}

-- a*b
abbrev star_b : List ℕ
star_b = 97 ∷ 42 ∷ 98 ∷ []

finds : match star_b (120 ∷ 97 ∷ 97 ∷ 98 ∷ []) ≡ true
unfolding match match_any matchhere match_one matchstar
finds = refl

-- a$ in "ab"
misses : match (97 ∷ 36 ∷ []) (97 ∷ 98 ∷ []) ≡ false
unfolding match match_any matchhere match_one matchstar
misses = refl

match-Means_example : (match star_b (120 ∷ 98 ∷ []) ≡ true) ↔ Means star_b (120 ∷ 98 ∷ [])
match-Means_example = match-Means star_b (120 ∷ 98 ∷ [])

-- "b\nx" and "b\nc\n"
abbrev pieces : List (List ℕ)
pieces = (98 ∷ 10 ∷ 120 ∷ []) ∷ (98 ∷ 10 ∷ 99 ∷ 10 ∷ []) ∷ []

pieces-Ok : All (λ chunk. All (λ c. c ≢ 0) chunk × (contains chunk 10 ≡ true)) pieces
pieces-Ok = (
  ((λ e. omega arith, (λ e. omega arith, (λ e. omega arith, tt))), refl),
  (((λ e. omega arith, (λ e. omega arith, (λ e. omega arith, (λ e. omega arith, tt)))), refl), tt),
)

grep_example :
    grep star_b [] pieces ≡ matching star_b ((98 ∷ []) ∷ (120 ∷ 98 ∷ []) ∷ (99 ∷ []) ∷ [])
grep_example = grep_lem star_b [] pieces tt tt pieces-Ok

grep_round_drops_example : grep_round star_b (97 ∷ []) (98 ∷ []) ≡ ([], [])
grep_round_drops_example =
    grep_round_drops star_b (97 ∷ []) (98 ∷ []) (λ e. omega arith, (λ e. omega arith, tt))
      (λ e. omega arith, (λ e. omega arith, tt))
