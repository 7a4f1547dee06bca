-- ===== src/Selection/Ranked.antt =====
-- The choice of the best candidate at the end of `resolve_run_execution_plan` in
-- src/core/run_selection.rs.
use vm_cell_manager.Prelude.{
  ℕ, Bool, true, false, List, [], ◌∷◌, nat_eq, ◌==◌, leb, length, filter, ok, ◌≡◌, ◌≤◌, refl, sym,
  ap, ◌∙◌, inl, inr, arith, All, Bool-cases, eq_self, eq_of_not, ◌!=◌, ◌≢◌, suc, err, ok_inj,
  if◌then◌else◌, Memᴰ, filter-mem,
}
use vm_cell_manager.Selection.Types.{RunExecutionPlan, ambiguous, Rejections}
use vm_cell_manager.Selection.Resolve.{insert_by_rank, sort_by_rank, choose_sorted}

abbrev pub Candidate : Type 0
Candidate = ℕ × RunExecutionPlan

abbrev pub of_rank : ℕ → List Candidate → List Candidate
of_rank rank = filter (λ d. d.0 == rank)

module _ (P : Candidate → Type 0) where
  insert_by_rank-All :
      (c : Candidate) (ds : List Candidate) → P c → All P ds → All P (insert_by_rank c ds)
  unfolding insert_by_rank
  insert_by_rank-All c [] h hs = (h, tt)
  insert_by_rank-All c (d ∷ ds) h hs = elim (Bool-cases (leb c.0 d.0)) [
    | inl a ↦ rw a (h, hs)
    | inr a ↦ rw a (hs.0, insert_by_rank-All c ds h hs.1)
  ]

  pub sort_by_rank-All : (cs : List Candidate) → All P cs → All P (sort_by_rank cs)
  unfolding sort_by_rank
  sort_by_rank-All [] h = tt
  sort_by_rank-All (c ∷ cs) h = insert_by_rank-All c (sort_by_rank cs) h.0 (sort_by_rank-All cs h.1)

  All-insert_by_rank :
      (c : Candidate) (ds : List Candidate) → All P (insert_by_rank c ds) → P c × All P ds
  unfolding insert_by_rank
  All-insert_by_rank c [] h = h
  All-insert_by_rank c (d ∷ ds) h = elim (Bool-cases (leb c.0 d.0)) [
    | inl a ↦ rw a at h
    | inr a ↦
        let h1 : P d × All P (insert_by_rank c ds) = rw a at h in
        let (here, rest) = All-insert_by_rank c ds h1.1 in (here, (h1.0, rest))
  ]

  All-sort_by_rank : (cs : List Candidate) → All P (sort_by_rank cs) → All P cs
  unfolding sort_by_rank
  All-sort_by_rank [] h = tt
  All-sort_by_rank (c ∷ cs) h =
      let (here, rest) = All-insert_by_rank c (sort_by_rank cs) h in
      (here, All-sort_by_rank cs rest)

abbrev IsSorted : List Candidate → Type 0
IsSorted [] = Unit {0}
IsSorted (c ∷ cs) = All (λ d. c.0 ≤ d.0) cs × IsSorted cs

leb-true : (a b : ℕ) → leb a b ≡ true → a ≤ b
leb-true a b h = grind arith

leb-false : (a b : ℕ) → leb a b ≡ false → b ≤ a
leb-false a b h = grind arith

at_least : (a b : ℕ) (ds : List Candidate) → a ≤ b → All (λ d. b ≤ d.0) ds → All (λ d. a ≤ d.0) ds
at_least a b [] l h = tt
at_least a b (d ∷ ds) l h = (omega arith, at_least a b ds l h.1)

insert_by_rank-IsSorted :
    (c : Candidate) (ds : List Candidate) → IsSorted ds → IsSorted (insert_by_rank c ds)
unfolding insert_by_rank
insert_by_rank-IsSorted c [] h = (tt, tt)
insert_by_rank-IsSorted c (d ∷ ds) h = elim (Bool-cases (leb c.0 d.0)) [
  | inl a ↦ rw a ((leb-true c.0 d.0 a, at_least c.0 d.0 ds (leb-true c.0 d.0 a) h.0), h)
  | inr a ↦ rw a (
    insert_by_rank-All (λ e. d.0 ≤ e.0) c ds (leb-false c.0 d.0 a) h.0,
    insert_by_rank-IsSorted c ds h.1,
  )
]

sort_by_rank-IsSorted : (cs : List Candidate) → IsSorted (sort_by_rank cs)
unfolding sort_by_rank
sort_by_rank-IsSorted [] = tt
sort_by_rank-IsSorted (c ∷ cs) =
    insert_by_rank-IsSorted c (sort_by_rank cs) (sort_by_rank-IsSorted cs)

-- The sort keeps the candidates of one rank, in their order.
not_both : (a b k : ℕ) → leb a b ≡ false → (a == k) ≡ true → (b == k) ≡ false
not_both a b k h e = ground arith

of_rank-insert_by_rank :
    (k : ℕ) (c : Candidate) (ds : List Candidate)
    → of_rank k (insert_by_rank c ds) ≡ of_rank k (c ∷ ds)
unfolding insert_by_rank
of_rank-insert_by_rank k c [] = refl
of_rank-insert_by_rank k c (d ∷ ds) = elim (Bool-cases (leb c.0 d.0)) [
  | inl a ↦ rw a refl
  | inr a ↦ elim (Bool-cases (c.0 == k)) [
    | inl e ↦
        let f = not_both c.0 d.0 k a e in
        let i : of_rank k (insert_by_rank c ds) ≡ c ∷ of_rank k ds =
          of_rank-insert_by_rank k c ds ∙ rw e refl in
        rw a (rw f (i ∙ rw e refl))
    | inr e ↦
        let i : of_rank k (insert_by_rank c ds) ≡ of_rank k ds =
          of_rank-insert_by_rank k c ds ∙ rw e refl in
        rw a (rw e (rw i refl))
  ]
]

of_rank-sort_by_rank : (k : ℕ) (cs : List Candidate) → of_rank k (sort_by_rank cs) ≡ of_rank k cs
unfolding sort_by_rank
of_rank-sort_by_rank k [] = refl
of_rank-sort_by_rank k (c ∷ cs) =
    of_rank-insert_by_rank k c (sort_by_rank cs) ∙ rw (of_rank-sort_by_rank k cs) refl

-- The best candidate: of the least rank, and the only one of it.
pub record IsBest (c : Candidate) (cs : List Candidate) : Type 0 where
  pub least : All (λ d. c.0 ≤ d.0) cs
  pub only : of_rank c.0 cs ≡ c ∷ []

single :
    (c : Candidate) (ds : List Candidate)
    → (length (of_rank c.0 (c ∷ ds)) != 1) ≡ false
    → of_rank c.0 (c ∷ ds) ≡ c ∷ []
single c ds h =
    let first : of_rank c.0 (c ∷ ds) ≡ c ∷ of_rank c.0 ds = rw (eq_self c.0) refl in
    first ∙ alone (of_rank c.0 ds) (eq_of_not (length (c ∷ of_rank c.0 ds)) 1 (rw first at h))
  where
    alone : (es : List Candidate) → length (c ∷ es) ≡ 1 → c ∷ es ≡ c ∷ []
    alone [] h = refl
    alone (e ∷ es) h = absurd (two (length es) h)
      where
        two : (n : ℕ) → suc (suc n) ≢ 1
        two n h = omega arith

unambiguous :
    (b : Bool) {chosen plan : RunExecutionPlan}
    → (if b then err ambiguous else ok chosen) ≡ ok plan
    → (b ≡ false) × (chosen ≡ plan)
unambiguous true h = cc
unambiguous false h = (refl, ok_inj h)

chosen_first :
    (rejected : Rejections) (cs : List Candidate) {plan : RunExecutionPlan}
    → IsSorted cs
    → choose_sorted rejected cs ≡ ok plan
    → (rank : ℕ) × IsBest (rank, plan) cs
unfolding choose_sorted
chosen_first rejected [] s e = cc
chosen_first rejected (c ∷ cs) {plan} s e =
    let (alone, same) = unambiguous (length (of_rank c.0 (c ∷ cs)) != 1) e in
    (
      c.0,
      record {
        least = (reflexive c.0, s.0);
        only = single c cs alone ∙ ap (λ p. (c.0, p) ∷ []) same;
      },
    )
  where
    reflexive : (n : ℕ) → n ≤ n
    reflexive n = omega arith

-- What the end of the resolver returns is the best of the candidates before the sort.
pub choose_sorted-IsBest :
    (rejected : Rejections) (cs : List Candidate) {plan : RunExecutionPlan}
    → choose_sorted rejected (sort_by_rank cs) ≡ ok plan
    → (rank : ℕ) × IsBest (rank, plan) cs
choose_sorted-IsBest rejected cs {plan} e =
    let (rank, b) = chosen_first rejected (sort_by_rank cs) (sort_by_rank-IsSorted cs) e in
    (
      rank,
      record {
        least = All-sort_by_rank (λ d. rank ≤ d.0) cs b.least;
        only = sym (of_rank-sort_by_rank rank cs) ∙ b.only;
      },
    )

-- The best candidate is one of them.
pub IsBest-mem : (c : Candidate) (cs : List Candidate) → IsBest c cs → Memᴰ c cs
IsBest-mem c cs b = (filter-mem (λ d. d.0 == c.0) cs (rw b.only (Memᴰ.head refl))).0
