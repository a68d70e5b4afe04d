-- ===== src/Proc/Selection.antt =====
-- Which process each scheduler picks.
use xv6_public_os_project.Proc.Types.{Proc, is_runnable}
use xv6_public_os_project.Proc.Scheduler.{fcfs_better, sjf_better, bjf_better, improve, select}
use xv6_public_os_project.Base.{
  ℕ, ◌+◌, ◌<◌, ◌≡◌, refl, inl, inr, Bool, true, false, Option, none, some, List, [], ◌∷◌, ◌++◌,
  get_elem?, length, arith, Bool-cases, subst, get_elem?-snoc, get_elem?-append_left, get_elem?-lt,
  get_elem?-length, length-append,
}
use mathlib.Core.List.{append-nil, append_assoc}

-- An order in which a process may be better than another.
pub record IsRanking (better : Proc → Proc → Bool) : Type 0 where
  pub irrefl : (a : Proc) → better a a ≡ false
  pub trans : (a b c : Proc) → better a b ≡ true → better b c ≡ true → better a c ≡ true
  pub split : (a b c : Proc) → better a b ≡ false → better b c ≡ false → better a c ≡ false

-- `i`, `p` are the slot and the process that the loop over `ps` should pick: RUNNABLE, no RUNNABLE
-- process is better, and it is better than each RUNNABLE process in front of it.
pub record IsFirstBest (better : Proc → Proc → Bool) (ps : List Proc) (i : ℕ) (p : Proc)
    : Type 0 where
  pub there : get_elem? ps i ≡ some p
  pub ready : is_runnable p.state ≡ true
  pub best :
      (j : ℕ) (q : Proc) → get_elem? ps j ≡ some q → is_runnable q.state ≡ true → better q p ≡ false
  pub first :
      (j : ℕ) (q : Proc)
      → j < i
      → get_elem? ps j ≡ some q
      → is_runnable q.state ≡ true
      → better p q ≡ true

abbrev pub NoneRunnable : List Proc → Type 0
NoneRunnable ps = (j : ℕ) (q : Proc) → get_elem? ps j ≡ some q → is_runnable q.state ≡ false

pub fcfs-IsRanking : IsRanking fcfs_better
unfolding fcfs_better
fcfs-IsRanking = record {
  irrefl = λ a. ground arith;
  trans = λ a b c h k. ground arith;
  split = λ a b c h k. ground arith;
}

pub sjf-IsRanking : IsRanking sjf_better
unfolding sjf_better
sjf-IsRanking = record {
  irrefl = λ a. ground arith;
  trans = λ a b c h k. ground arith;
  split = λ a b c h k. ground arith;
}

pub bjf-IsRanking : IsRanking bjf_better
unfolding bjf_better
bjf-IsRanking = record {
  irrefl = λ a. ground arith;
  trans = λ a b c h k. ground arith;
  split = λ a b c h k. ground arith;
}

module _ (better : Proc → Proc → Bool) (rank : IsRanking better) where
  -- What the loop knows of the processes `seen` so far.
  abbrev Knows : List Proc → Option (ℕ × Proc) → Type 0
  Knows seen none = NoneRunnable seen
  Knows seen (some (i, p)) = IsFirstBest better seen i p

  Knows-idle :
      (seen : List Proc) (p : Proc) (b : Option (ℕ × Proc))
      → is_runnable p.state ≡ false
      → Knows seen b
      → Knows (seen ++ (p ∷ [])) b
  Knows-idle seen p none idle h = λ j q e. elim (get_elem?-snoc seen p j q e) [
    | inl e' ↦ h j q e'
    | inr e' ↦ subst (λ (x : Proc). is_runnable x.state ≡ false) e'.1 idle
  ]
  Knows-idle seen p (some (i, b)) idle h = record {
    there = get_elem?-append_left seen (p ∷ []) i b h.there;
    ready = h.ready;
    best = λ j q e r. elim (get_elem?-snoc seen p j q e) [
      | inl e' ↦ h.best j q e' r
      | inr e' ↦ ground arith
    ];
    first = λ j q lt e r. elim (get_elem?-snoc seen p j q e) [
      | inl e' ↦ h.first j q lt e' r
      | inr e' ↦ ground arith
    ];
  }

  -- A RUNNABLE process that comes next, where there is none yet, where it is better, and where not.
  Knows-only :
      (seen : List Proc) (p : Proc)
      → is_runnable p.state ≡ true
      → NoneRunnable seen
      → IsFirstBest better (seen ++ (p ∷ [])) (length seen) p
  Knows-only seen p ready h = record {
    there = get_elem?-length seen p;
    ready = ready;
    best = λ j q e r. elim (get_elem?-snoc seen p j q e) [
      | inl e' ↦ ground (arith, h j q e')
      | inr e' ↦ subst (λ (x : Proc). better x p ≡ false) e'.1 (rank.irrefl p)
    ];
    first = λ j q lt e r. elim (get_elem?-snoc seen p j q e) [
      | inl e' ↦ ground (arith, h j q e')
      | inr e' ↦ absurd (omega arith)
    ];
  }

  Knows-better :
      (seen : List Proc) (p b : Proc) (i : ℕ)
      → is_runnable p.state ≡ true
      → better p b ≡ true
      → IsFirstBest better seen i b
      → IsFirstBest better (seen ++ (p ∷ [])) (length seen) p
  Knows-better seen p b i ready more h = record {
    there = get_elem?-length seen p;
    ready = ready;
    best = λ j q e r. elim (get_elem?-snoc seen p j q e) [
      | inl e' ↦ not_better j q e' r
      | inr e' ↦ subst (λ (x : Proc). better x p ≡ false) e'.1 (rank.irrefl p)
    ];
    first = λ j q lt e r. elim (get_elem?-snoc seen p j q e) [
      | inl e' ↦ still_better j q e' r
      | inr e' ↦ absurd (omega arith)
    ];
  }
    where
      not_better :
          (j : ℕ) (q : Proc)
          → get_elem? seen j ≡ some q
          → is_runnable q.state ≡ true
          → better q p ≡ false
      not_better j q e r = elim (Bool-cases (better q p)) [
        | inl t ↦ ground (arith, rank.trans q p b t more, h.best j q e r)
        | inr f ↦ f
      ]

      still_better :
          (j : ℕ) (q : Proc)
          → get_elem? seen j ≡ some q
          → is_runnable q.state ≡ true
          → better p q ≡ true
      still_better j q e r = elim (Bool-cases (better p q)) [
        | inl t ↦ t
        | inr f ↦ ground (arith, rank.split p q b f (h.best j q e r))
      ]

  Knows-worse :
      (seen : List Proc) (p b : Proc) (i : ℕ)
      → better p b ≡ false
      → IsFirstBest better seen i b
      → IsFirstBest better (seen ++ (p ∷ [])) i b
  Knows-worse seen p b i less h = record {
    there = get_elem?-append_left seen (p ∷ []) i b h.there;
    ready = h.ready;
    best = λ j q e r. elim (get_elem?-snoc seen p j q e) [
      | inl e' ↦ h.best j q e' r
      | inr e' ↦ subst (λ (x : Proc). better x b ≡ false) e'.1 less
    ];
    first = λ j q lt e r. elim (get_elem?-snoc seen p j q e) [
      | inl e' ↦ h.first j q lt e' r
      | inr e' ↦ absurd (omega (arith, get_elem?-lt seen i b h.there))
    ];
  }

  Knows-improve :
      (seen : List Proc) (p : Proc) (best : Option (ℕ × Proc))
      → is_runnable p.state ≡ true
      → Knows seen best
      → Knows (seen ++ (p ∷ [])) (improve better (length seen) p best)
  Knows-improve seen p none ready h = Knows-only seen p ready h
  Knows-improve seen p (some (i, b)) ready h = elim (Bool-cases (better p b)) [
    | inl e ↦ rw e (Knows-better seen p b i ready e h)
    | inr e ↦ rw e (Knows-worse seen p b i e h)
  ]

  select-Knows :
      (seen ps : List Proc) (i : ℕ) (best : Option (ℕ × Proc))
      → i ≡ length seen
      → Knows seen best
      → Knows (seen ++ ps) (select better ps i best)
  unfolding select
  select-Knows seen [] i best e h = rw append-nil h
  select-Knows seen (p ∷ ps) i best e h = rw (← append_assoc seen (p ∷ []) ps) (
      select-Knows (seen ++ (p ∷ [])) ps (i + 1) _ (omega (arith, length-append seen (p ∷ [])))
        (elim (Bool-cases (is_runnable p.state)) [
          | inl r ↦ rw (r, e) (Knows-improve seen p best r h)
          | inr r ↦ rw r (Knows-idle seen p best r h)
        ]))

  pub select-Picks : (ps : List Proc) → Knows ps (select better ps 0 none)
  select-Picks ps = select-Knows [] ps 0 none refl (λ j q e. ground arith)
