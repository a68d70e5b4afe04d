-- ===== src/Pipe/Tests.antt =====
-- A pipe that has been used: its counters stand in front of 2 ^ 32, so that they wrap.
use xv6_public_os_project.Pipe.{Pipe, pipewrite, piperead, fresh, put}
use xv6_public_os_project.Pipe.Ring.{IsValid, contents}
use xv6_public_os_project.Pipe.Transfer.{Writes, Reads, pipewrite-Writes, piperead-Reads}
use xv6_public_os_project.Pipe.Stream.{Session, opened, Reach, here, next, writes, stream_intact}
use xv6_public_os_project.Base.{
  ℕ, ◌^◌, ◌-◌, ◌≡◌, refl, List, [], ◌∷◌, ◌++◌, replicate, arith, true, false,
}

abbrev old : Pipe
old = record {
  bytes = replicate 512 0;
  nread = 2 ^ 32 - 1;
  nwrite = 2 ^ 32 - 1;
  readopen = true;
  writeopen = true;
}

old-IsValid : IsValid old
old-IsValid = record {
  size = refl;
  nread_word = omega arith;
  nwrite_word = omega arith;
  within = omega arith;
}

wrapped_bytes : contents (put (put old 5) 6) ≡ 5 ∷ 6 ∷ []
unfolding put
wrapped_bytes = refl

pipewrite-Writes_example : Writes false 2 (5 ∷ 6 ∷ []) old (pipewrite false 2 (5 ∷ 6 ∷ []) old)
pipewrite-Writes_example = pipewrite-Writes false 2 (5 ∷ 6 ∷ []) old old-IsValid

piperead-Reads_example : Reads false 4 old (piperead false 4 old)
piperead-Reads_example = piperead-Reads false 4 old old-IsValid

abbrev page : List ℕ
page = replicate 512 0

abbrev sent_two : Pipe
sent_two = record {
  bytes = 5 ∷ 6 ∷ replicate 510 0;
  nread = 0;
  nwrite = 2;
  readopen = true;
  writeopen = true;
}

abbrev after_two : Session
after_two = record { pipe = sent_two; sent = 5 ∷ 6 ∷ []; received = []; pending = [] }

after_two-Reach : Reach (opened page) after_two
unfolding pipewrite put fresh
after_two-Reach = next here (writes false 2 (5 ∷ 6 ∷ []) sent_two refl refl)

stream_intact_example : 5 ∷ 6 ∷ [] ≡ [] ++ (contents sent_two ++ [])
stream_intact_example = stream_intact page after_two refl after_two-Reach
