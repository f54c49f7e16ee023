-- ===== src/Aarch64/Vm/Grow.antt =====
-- aarch64/src/vm.rs: the tree after `next_mut` has put a new table into it.
use r.Common.{
  ℕ, suc, ◌*◌, ◌/◌, ◌^◌, ◌<◌, ◌≡◌, ◌≢◌, ◌⊎◌, refl, sym, ap, ◌∙◌, true, false, ◌&&◌, ◌==◌,
  if◌then◌else◌, none, some, inl, inr, subst, Bool-cases, ℕ_discrete, ==_refl, ==_ne, arith,
}
use r.Mem.{page_size_4k}
use r.Bitmap.Alloc.{BitmapPageAlloc}
use r.Bitmap.Alloc.Valid.{allocated}
use r.Bitmap.Alloc.Pages.{Taken}
use r.Aarch64.Vm.Entry.{EntryOps, IsLawful, valid, flag, table_entry}
use r.Aarch64.Vm.Table.{Machine, clear, write}
use r.Aarch64.Vm.Walk.{target, child, IsUsed, Edge, IsTree, table_entry-target, zero-target}
use r.Aarch64.Vm.Extend.{Extends}
use mathlib.Core.Option.{some-injective}

module _ {E : Type 0} (ops : EntryOps E) (lawful : IsLawful ops) {s : Machine E} {self : ℕ}
    {rank : ℕ → ℕ} (tree : IsTree ops s self rank) (p index : ℕ) (here : IsUsed ops s p)
    (inner : rank p < 3) (invalid : flag ops valid (s.entries p index) ≡ false)
    {a' : BitmapPageAlloc} {q : ℕ} (t : Taken tree.ready a' q) where
  abbrev pa : ℕ
  pa = q * page_size_4k

  -- The machine after the new page is cleared, and after the entry for it is written.
  abbrev pub cleared : Machine E
  cleared = clear ops (record s { pages = a' }) pa

  abbrev pub grown : Machine E
  grown = write cleared p index (table_entry ops pa)

  abbrev pub grown_rank : ℕ → ℕ
  grown_rank x = if x == pa then suc (rank p) else rank x

  fresh : (x : ℕ) → IsUsed ops s x → x ≢ pa
  fresh x u e =
      let page : x / page_size_4k ≡ q = omega arith in
      cc (u.1, ap (allocated page_size_4k s.pages) page, t.was_free)

  stays_used : (x : ℕ) → IsUsed ops s x → IsUsed ops cleared x
  stays_used x u = (u.0, t.at (x / page_size_4k) ∙ ground (arith, u.1))

  new_used : IsUsed ops cleared pa
  new_used =
      let page : pa / page_size_4k ≡ q = omega arith in
      (
        ap (λ n. n * page_size_4k) page,
        ap (allocated page_size_4k a') page ∙ t.at q ∙ rw (==_refl q) refl,
      )

  was_used : (x : ℕ) → IsUsed ops cleared x → x ≢ pa → IsUsed ops s x
  was_used x u ne =
      let other : x / page_size_4k ≢ q = λ e. ne (sym u.0 ∙ ap (λ n. n * page_size_4k) e) in
      let b = allocated page_size_4k s.pages (x / page_size_4k) in
      let e : (if x / page_size_4k == q then true else b) ≡ b =
        rw (==_ne (x / page_size_4k) q other) refl in
      (u.0, sym (t.at (x / page_size_4k) ∙ e) ∙ u.1)

  pub cleared-Extends : Extends ops s cleared rank rank
  cleared-Extends = record {
    same_root = refl;
    used_kept = stays_used;
    rank_kept = λ x u. refl;
    entry_kept = λ x i u h. rw (==_ne x pa (fresh x u)) refl;
  }

  entry_grown :
      (x i : ℕ)
      → IsUsed ops s x
      → grown.entries x i ≡ (if x == p && i == index then table_entry ops pa else s.entries x i)
  entry_grown x i u = rw (==_ne x pa (fresh x u)) refl

  pub grown-Extends : Extends ops s grown rank grown_rank
  grown-Extends = record {
    same_root = refl;
    used_kept = stays_used;
    rank_kept = λ x u. rw (==_ne x pa (fresh x u)) refl;
    entry_kept = λ x i u h. entry_grown x i u ∙ elim (Bool-cases (x == p && i == index)) [
      | inr b ↦ rw b refl
      | inl b ↦
          let same : (x ≡ p) × (i ≡ index) = ground (arith, b) in
          absurd (
            cc (
              h,
              invalid,
              ap (λ y. flag ops valid (s.entries y i)) same.0,
              ap (λ j. flag ops valid (s.entries p j)) same.1,
            ))
    ];
  }

  small : q < 2 ^ 36
  small = let h = t.in_range in omega arith

  pub grown-child : child ops grown p index ≡ some pa
  grown-child = rw (==_refl p, ==_refl index) (table_entry-target ops lawful q small)

  no_child : (i : ℕ) → child ops grown pa i ≡ none
  no_child i =
      let other : pa ≢ p = λ e. fresh p here (sym e) in
      rw (==_ne pa p other, ==_refl pa) (zero-target ops lawful)

  -- An entry of the new tree is the new one, or one of the old tree.
  pub old_or_new :
      (x i y : ℕ)
      → Edge ops grown grown_rank x i y
      → ((x ≡ p) × (i ≡ index) × (pa ≡ y)) ⊎ (Edge ops s rank x i y)
  old_or_new x i y ed = elim (ℕ_discrete x pa) [
    | yes e ↦ absurd (cc (ap (λ z. child ops grown z i) e, ed.points, no_child i))
    | no ne ↦
        let u0 = was_used x ed.in_use ne in
        let g : grown_rank x ≡ rank x = rw (==_ne x pa ne) refl in
        elim (Bool-cases (x == p && i == index)) [
          | inl b ↦
              let same : (x ≡ p) × (i ≡ index) = ground (arith, b) in
              inl (
                same.0,
                same.1,
                some-injective _ _ (
                    sym (table_entry-target ops lawful q small)
                    ∙ sym (ap (target ops) (entry_grown x i u0 ∙ rw b refl))
                    ∙ ed.points),
              )
          | inr b ↦ inr (record {
            in_use = u0;
            inner = rw g at ed.inner;
            not_last = λ z. ed.not_last (g ∙ z);
            points = sym (ap (target ops) (entry_grown x i u0 ∙ rw b refl)) ∙ ed.points;
          })
        ]
  ]

  grown-down :
      (x i y : ℕ)
      → Edge ops grown grown_rank x i y
      → IsUsed ops grown y × (grown_rank y ≡ suc (grown_rank x))
  grown-down x i y ed = elim (old_or_new x i y ed) [
    | inl (e, _, ey) ↦ (
      subst (IsUsed ops grown) ey new_used,
      ap grown_rank (sym ey)
          ∙ rw (==_refl pa) (sym (ap suc (ap grown_rank e ∙ grown-Extends.rank_kept p here))),
    )
    | inr old ↦
        let (uy, ry) = tree.down x i y old in
        (
          stays_used y uy,
          grown-Extends.rank_kept y uy ∙ ry ∙ ap suc (sym (grown-Extends.rank_kept x old.in_use)),
        )
  ]

  grown_unique :
      (x i x' i' y : ℕ)
      → Edge ops grown grown_rank x i y
      → Edge ops grown grown_rank x' i' y
      → (x ≡ x') × (i ≡ i')
  grown_unique x i x' i' y e e' = elim (old_or_new x i y e) [
    | inl (ex, ei, ey) ↦ elim (old_or_new x' i' y e') [
      | inl (ex', ei', _) ↦ (ex ∙ sym ex', ei ∙ sym ei')
      | inr old ↦ absurd (fresh y (tree.down x' i' y old).0 (sym ey))
    ]
    | inr old ↦ elim (old_or_new x' i' y e') [
      | inl (_, _, ey) ↦ absurd (fresh y (tree.down x i y old).0 (sym ey))
      | inr old' ↦ tree.unique x i x' i' y old old'
    ]
  ]

  pub grown-IsTree : IsTree ops grown self grown_rank
  grown-IsTree = record {
    ready = t.ready;
    page_size = t.page_size ∙ tree.page_size;
    root_used = stays_used s.root tree.root_used;
    self_used = stays_used self tree.self_used;
    root_rank = rw (==_ne s.root pa (fresh s.root tree.root_used)) tree.root_rank;
    self_rank = rw (==_ne self pa (fresh self tree.self_used)) tree.self_rank;
    down = grown-down;
    unique = grown_unique;
  }
