-- ===== src/Decision/Allocation/Sorting.antt =====
-- The ranking is a stable sort by a total preorder, although the comparator ends at a NaN.
use mathlib.Core.Path.{subst}
use res_q_server.Decision.Allocation.{
  Evaluation, Order, compare_evaluations, compare_fit, insert_ranked, rank_candidates,
}
use res_q_server.Common.{
  arith, ℕ, ◌≡◌, ◌≢◌, All, List, [], ◌∷◌, All-mono, Any, inl, inr, refl, ◌⊎◌, sym,
}

dec_after : (o : Order) → (o ≡ Order.after) ⊎ (o ≢ Order.after)
dec_after Order.before = inr (λ e. cc)
dec_after Order.same = inr (λ e. cc)
dec_after Order.after = inl refl

-- `a` may stand before `b`.
abbrev pub NotAfter : Evaluation → Evaluation → Type 0
NotAfter a b = compare_evaluations a b ≢ Order.after

compare_fit_trans :
    (f f' f'' i i' i'' : ℕ)
    → compare_fit f f' i i' ≢ Order.after
    → compare_fit f' f'' i' i'' ≢ Order.after
    → compare_fit f f'' i i'' ≢ Order.after
unfolding compare_fit
compare_fit_trans f f' f'' i i' i'' h k e = ground arith

NotAfter-trans : (a b c : Evaluation) → NotAfter a b → NotAfter b c → NotAfter a c
unfolding compare_evaluations
NotAfter-trans a b c h k e = ground arith

NotAfter-refl : (a : Evaluation) → NotAfter a a
unfolding compare_evaluations
NotAfter-refl a e = ground arith

NotAfter-of_after : (a b : Evaluation) → compare_evaluations a b ≡ Order.after → NotAfter b a
unfolding compare_evaluations
NotAfter-of_after a b h e = ground arith

module _ (P : Evaluation → Type 0) where
  insert_ranked-All :
      (e : Evaluation) (xs : List Evaluation) → P e → All P xs → All P (insert_ranked e xs)
  unfolding insert_ranked
  insert_ranked-All e [] p h = (p, tt)
  insert_ranked-All e (x ∷ xs) p h = ground (arith, insert_ranked-All e xs p h.1)

  All-insert_ranked :
      (e : Evaluation) (xs : List Evaluation) → All P (insert_ranked e xs) → P e × All P xs
  unfolding insert_ranked
  All-insert_ranked e [] h = h
  All-insert_ranked e (x ∷ xs) h = ground (arith, All-insert_ranked e xs)

  -- The ranking holds what was given.
  pub All-rank_candidates : (es : List Evaluation) → All P (rank_candidates es) → All P es
  unfolding rank_candidates
  All-rank_candidates [] h = tt
  All-rank_candidates (e ∷ es) h =
      let (here, rest) = All-insert_ranked e (rank_candidates es) h in
      (here, All-rank_candidates es rest)

  Any-insert_ranked :
      (e : Evaluation) (xs : List Evaluation) → Any P (insert_ranked e xs) → P e ⊎ Any P xs
  unfolding insert_ranked
  Any-insert_ranked e [] h = h
  Any-insert_ranked e (x ∷ xs) h = ground (arith, Any-insert_ranked e xs)

  pub Any-rank_candidates : (es : List Evaluation) → Any P (rank_candidates es) → Any P es
  unfolding rank_candidates
  Any-rank_candidates [] h = h
  Any-rank_candidates (e ∷ es) h = elim (Any-insert_ranked e (rank_candidates es) h) [
    | inl here ↦ inl here
    | inr there ↦ inr (Any-rank_candidates es there)
  ]

-- No element stands before one that it comes after.
abbrev pub IsRanked : List Evaluation → Type 0
IsRanked [] = Unit
IsRanked (x ∷ xs) = All (NotAfter x) xs × IsRanked xs

All-NotAfter_trans :
    (a b : Evaluation) (xs : List Evaluation)
    → NotAfter a b
    → All (NotAfter b) xs
    → All (NotAfter a) xs
All-NotAfter_trans a b xs h k =
    All-mono (NotAfter b) (NotAfter a) xs (λ c. NotAfter-trans a b c h) k

insert_ranked-sooner :
    (e x : Evaluation) (xs : List Evaluation) → NotAfter e x → insert_ranked e (x ∷ xs) ≡ e ∷ x ∷ xs
unfolding insert_ranked
insert_ranked-sooner e x xs h = ground arith

insert_ranked-IsRanked :
    (e : Evaluation) (xs : List Evaluation) → IsRanked xs → IsRanked (insert_ranked e xs)
unfolding insert_ranked
insert_ranked-IsRanked e [] h = (tt, tt)
insert_ranked-IsRanked e (x ∷ xs) h = elim (dec_after (compare_evaluations e x)) [
  | inl later ↦
      rw (later, insert_ranked)
        (
          insert_ranked-All (NotAfter x) e xs (NotAfter-of_after e x later) h.0,
          insert_ranked-IsRanked e xs h.1,
        )
  | inr sooner ↦
      rw (insert_ranked-sooner e x xs sooner) ((sooner, All-NotAfter_trans e x xs sooner h.0), h)
]

-- The ranking is in order,
pub rank_candidates-IsRanked : (es : List Evaluation) → IsRanked (rank_candidates es)
unfolding rank_candidates
rank_candidates-IsRanked [] = tt
rank_candidates-IsRanked (e ∷ es) =
    insert_ranked-IsRanked e (rank_candidates es) (rank_candidates-IsRanked es)

-- and nothing that was given comes before its top.
pub rank_candidates-top :
    (es rest : List Evaluation) (b : Evaluation)
    → rank_candidates es ≡ b ∷ rest
    → All (NotAfter b) es
rank_candidates-top es rest b e =
    let ranked : IsRanked (b ∷ rest) = subst IsRanked e (rank_candidates-IsRanked es) in
    All-rank_candidates (NotAfter b) es
      (subst (All (NotAfter b)) (sym e) (NotAfter-refl b, ranked.0))
