-- ===== src/Strings/Tests.antt =====
-- Strings in a small memory: "hi" at 100.
use xv6_public_os_project.Strings.{Bytes, memmove, memcmp, strncmp}
use xv6_public_os_project.Strings.Copying.{IsString}
use xv6_public_os_project.Strings.Move.{memmove_lem}
use xv6_public_os_project.Base.{arith, ◌≡◌, refl, [], ◌∷◌, get_or, ◌-◌, minus_one}

abbrev memory : Bytes
memory a = get_or (104 ∷ 105 ∷ 0 ∷ 104 ∷ 106 ∷ []) (a - 100) 0

compared : strncmp 5 100 103 memory ≡ minus_one
unfolding strncmp
compared = refl

same : memcmp 1 100 103 memory ≡ 0
unfolding memcmp
same = refl

memmove_example : memmove 101 100 2 memory 102 ≡ 105
memmove_example = memmove_lem 101 100 2 memory 102

hi : IsString memory 100 (104 ∷ 105 ∷ [])
hi = (refl, λ e. omega arith, (refl, λ e. omega arith, refl))
