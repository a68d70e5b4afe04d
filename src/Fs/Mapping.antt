-- ===== src/Fs/Mapping.antt =====
-- The two steps of `bmap` (fs.c): an entry of `addrs`, and an entry of the indirect block.
use xv6_public_os_project.Fs.Blocks.{slot, Owns, Grows, not_owned, Grows-Owns, Maps, Mapped-there}
use xv6_public_os_project.Fs.Slots.{slot-lo, slot-hi, slot-direct, slot-kept, slot-indirect}
use xv6_public_os_project.Fs.Disk.{SuperBlock, Disk, put_block, word_at, put_word}
use xv6_public_os_project.Fs.Bitmap.{balloc}
use xv6_public_os_project.Fs.Allocation.{
  used, first_data, IsLaidOut, Allocates, balloc-Allocates, free_lt, used-put_block,
}
use xv6_public_os_project.Fs.Inode.{Inode, direct, indirect, with_inode}
use xv6_public_os_project.Base.{
  ℕ, ◌+◌, ◌*◌, ◌≤◌, ◌<◌, ◌≡◌, ◌≢◌, ◌⊎◌, inl, inr, refl, ap, sym, ◌∙◌, subst, true, false, Option,
  none, some, ◌==◌, ==_iff, ==_refl, update, arith, word, Bool-cases,
}

-- A block in a slot is not touched by the allocation of another.
owned-kept :
    {sb : SuperBlock} {ip : Inode} {s t : Disk} {b : ℕ} (l : ℕ)
    → Owns sb ip s
    → Allocates sb s (some (t, b))
    → l < 141
    → slot ip s l ≢ 0
    → (o : ℕ) → t.blocks (slot ip s l) o ≡ s.blocks (slot ip s l) o
owned-kept {sb} {ip} {s} {t} {b} l own (lt, free, marks, new, others, logged) hl n =
    others (slot ip s l)
      (not_owned b l own free hl (λ z. omega (arith, free_lt sb s b own.laid free)))
      (λ e. omega (arith, (own.in_range l hl n).1, e))

pub direct-Maps :
    (sb : SuperBlock) (k : ℕ) (ip : Inode) (s : Disk)
    → k < 13
    → Owns sb ip s
    → Maps sb ip s k (direct sb k ip s)
unfolding direct Maps
direct-Maps sb k ip s h own = elim (Bool-cases (ip.addrs k == 0)) [
  | inr e ↦ rw (e, direct) (Mapped-there k own (slot-lo ip s k h) (λ q. ground arith))
  | inl e ↦ rw (e, direct) (go e (balloc sb s) (balloc-Allocates sb s own.laid))
]
  where
    go :
        (ip.addrs k == 0) ≡ true
        → (o : Option (Disk × ℕ)) → Allocates sb s o
        → Maps sb ip s k (elim o [
          | none ↦ none
          | some (t, b) ↦ some (record ip { addrs = update ip.addrs k b }, t, b)
        ])
    go z none a = a
    go z (some (t, b)) a =
        let ip' = record ip { addrs = update ip.addrs k b } in
        let (lt, free, marks, new, others, logged) = a in
        let vacant : slot ip s k ≡ 0 = slot-lo ip s k h ∙ (==_iff _ 0).0 z in
        let nz : b ≢ 0 = λ z. omega (arith, free_lt sb s b own.laid free) in
        let old = λ (n : ip.addrs 12 ≢ 0) (o : ℕ).
          subst (λ (c : ℕ). t.blocks c o ≡ s.blocks c o) (slot-lo ip s 12 (omega arith))
            (owned-kept 12 own a (omega arith) (λ z. n (sym (slot-lo ip s 12 (omega arith)) ∙ z))
              o) in
        let all = slot-direct ip s t k b h vacant nz new old in
        let grows : Grows sb ip s k b ip' t = record {
          size = lt;
          free = free;
          empty = vacant;
          marks = marks;
          slots = λ l hl. all l;
        } in
        record {
          owns = Grows-Owns own grows;
          hit = all k ∙ (rw (==_refl k) refl);
          nonzero = nz;
          slots = λ l hl ne m. ground (arith, all l);
          kept = λ n. absurd (n vacant);
          fresh = λ z o. new o;
          bytes = λ l hl m n o. owned-kept l own a hl n o;
          rest = refl;
        }

-- No more than one block is taken for `addrs k`.
abbrev pub Takes : SuperBlock → Disk → Option (Inode × Disk × ℕ) → Type 0
Takes sb s none = Unit
Takes sb s (some (ip', t, a)) =
    (c : ℕ) → c < sb.size → used sb t c ≡ 1 → (used sb s c ≡ 1) ⊎ (c ≡ a)

pub direct-Takes :
    (sb : SuperBlock) (k : ℕ) (ip : Inode) (s : Disk)
    → IsLaidOut sb s
    → Takes sb s (direct sb k ip s)
unfolding direct
direct-Takes sb k ip s laid = elim (Bool-cases (ip.addrs k == 0)) [
  | inr e ↦ rw (e, direct) (λ c h u. inl u)
  | inl e ↦ rw (e, direct) (go (balloc sb s) (balloc-Allocates sb s laid))
]
  where
    go :
        (o : Option (Disk × ℕ))
        → Allocates sb s o
        → Takes sb s (elim o [
          | none ↦ none
          | some (t, b) ↦ some (record ip { addrs = update ip.addrs k b }, t, b)
        ])
    go none a = tt
    go (some (t, b)) a = λ c h u. elim (Bool-cases (b == c)) [
      | inl e ↦ inr (ground arith)
      | inr e ↦ inl (ground (arith, a.2 c h))
    ]

pub indirect-Maps :
    (sb : SuperBlock) (i : ℕ) (ip : Inode) (s : Disk)
    → i < 128
    → Owns sb ip s
    → ip.addrs 12 ≢ 0
    → Maps sb ip s (13 + i) (with_inode ip (indirect sb (ip.addrs 12) i s))
unfolding indirect Maps
indirect-Maps sb i ip s h own n =
    elim (Bool-cases (word_at (s.blocks (ip.addrs 12)) (4 * i) == 0)) [
      | inr e ↦ rw (e, indirect) (Mapped-there (13 + i) own entry (λ q. ground arith))
      | inl e ↦ rw (e, indirect) (go e (balloc sb s) (balloc-Allocates sb s own.laid))
    ]
  where
    entry : slot ip s (13 + i) ≡ word_at (s.blocks (ip.addrs 12)) (4 * i)
    entry =
        slot-hi ip s (13 + i) (omega arith) n
        ∙ ap (λ (p : ℕ). word_at (s.blocks (ip.addrs 12)) p) (omega arith)

    go :
        (word_at (s.blocks (ip.addrs 12)) (4 * i) == 0) ≡ true
        → (o : Option (Disk × ℕ)) → Allocates sb s o
        → Maps sb ip s (13 + i) (
            with_inode ip (elim o [
              | none ↦ none
              | some (t, b) ↦
                  some (put_block (ip.addrs 12) (put_word (4 * i) b (t.blocks (ip.addrs 12))) t, b)
            ]))
    go e none a = a
    go e (some (t, b)) a =
        let ind = ip.addrs 12 in
        let u = put_block ind (put_word (4 * i) b (t.blocks ind)) t in
        let (lt, free, marks, new, others, logged) = a in
        let at_ind : slot ip s 12 ≡ ind = slot-lo ip s 12 (omega arith) in
        let owned : slot ip s 12 ≢ 0 = λ z. n (sym at_ind ∙ z) in
        let vacant : slot ip s (13 + i) ≡ 0 = entry ∙ (==_iff _ 0).0 e in
        let nz : b ≢ 0 = λ z. omega (arith, free_lt sb s b own.laid free) in
        let old = λ (o : ℕ).
          subst (λ (c : ℕ). t.blocks c o ≡ s.blocks c o) at_ind
            (owned-kept 12 own a (omega arith) owned o) in
        let behind : first_data sb ≤ ind =
          omega (arith, (own.in_range 12 (omega arith) owned).1, at_ind) in
        let before = λ (l : ℕ) (hl : l < 141). slot-kept ip s t n old l in
        let small : b < word = omega (arith, own.laid.small) in
        let all = slot-indirect ip t i b h small n in
        let grows : Grows sb ip s (13 + i) b ip u = record {
          size = lt;
          free = free;
          empty = vacant;
          marks = λ c hc. used-put_block sb ind c _ t hc behind ∙ marks c hc;
          slots = λ l hl. ground (arith, all l, before l hl);
        } in
        record {
          owns = Grows-Owns own grows;
          hit = all (13 + i) ∙ (rw (==_refl (13 + i)) refl);
          nonzero = nz;
          slots = λ l hl ne m. ground (arith, all l, before l hl);
          kept = λ q. absurd (q vacant);
          fresh = λ z o.
              let ne : (ind == b) ≡ false =
                ground (arith, not_owned b 12 own free (omega arith) nz, at_ind) in
              rw ne (new o);
          bytes = λ l hl m q o.
              let ne : (ind == slot ip s l) ≡ false =
                ground (arith, own.apart l 12 hl (omega arith) q m, at_ind) in
              rw ne (owned-kept l own a hl q o);
          rest = refl;
        }
