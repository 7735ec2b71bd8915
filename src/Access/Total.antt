-- ===== src/Access/Total.antt =====
-- access.py: an exit with several candidates, from finding them to the answer.
use garage_pass.Base.{
  ◌≡◌, refl, ◌≢◌, ◌⊎◌, inl, inr, Bool, true, List, [], ◌∷◌, ◌++◌, none, some, Text, All, In, arith,
  find, Bool-cases, Option-cases, sort_by, In-sort_by, append-In, sort_by-In, In-ne-nil,
  append-ne-nil,
}
use garage_pass.Findings.{Reason}
use garage_pass.Result.{Result, ok, map_all, Returns, Returns-ok}
use garage_pass.Platform.{Platform}
use garage_pass.Passes.{Pass, Registration}
use garage_pass.Access
use garage_pass.Access.Built.{IsBuilt}
use garage_pass.Access.Found.{by_id-In, copy_of, copies_of-In}
use garage_pass.Access.Shape.{
  IsAnswer, evaluate-Answers, answer_not_covered-IsAnswer, answer_refused-IsAnswer,
}

-- Evaluating every element of a list, where each one returns.
pub map_all-Returns :
    {A B : Type 0} (P : B → Type 0) (f : A → Result B) (xs : List A)
    → ((x : A) → In x xs → Returns P (f x))
    → (ys : List B) × (map_all f xs ≡ ok ys) × All P ys × (xs ≢ [] → ys ≢ [])
map_all-Returns P f [] h = ([], refl, tt, λ n. absurd (n refl))
map_all-Returns P f (x ∷ xs) h =
    let (y, e, k) = Returns-ok P (f x) (h x (inl refl)) in
    let (ys, es, ks, _) = map_all-Returns P f xs (λ z i. h z (inr i)) in
    (y ∷ ys, rw (e, es), (k, ks), λ _ n. cc)

pub note-IsAnswer :
    (q : Access.Question) (parts : List Access.Inconsistency) (a : Access.Answer)
    → IsAnswer q a
    → IsAnswer q (Access.note parts a)
note-IsAnswer q parts a h = record {
  same_direction = h.same_direction;
  same_identity = h.same_identity;
  same_lane = h.same_lane;
  noted = h.noted;
  fits = refit a.outcome h.fits;
}
  where
    refit :
        (o : Access.Outcome) → Access.Shape.Fits q o a → Access.Shape.Fits q o (Access.note parts a)
    refit Access.Outcome.covered f = f
    refit Access.Outcome.not_covered f = f
    refit Access.Outcome.refused_to_answer f = f

find-All :
    {A : Type 0} (P : A → Type 0) (f : A → Bool) (xs : List A) (y : A)
    → All P xs
    → find f xs ≡ some y
    → P y
find-All P f [] y h e = cc
find-All P f (x ∷ xs) y h e = elim (Bool-cases (f x)) [
  | inl t ↦ let same : x ≡ y = ground (arith, e, t) in rw same at h.0
  | inr n ↦ find-All P f xs y h.1 (rw n at e)
]

module _ (p : Platform) (q : Access.Question) (built : IsBuilt p q) where
  -- The registration's pass was selected or duplicated.
  abbrev pub IsFound : Registration → Type 0
  IsFound r = (Access.is_duplicated q r.pass_id ≡ true) ⊎ (Access.by_id q r.pass_id ≢ none)

  candidates_of-total :
      (r : Registration)
      → IsFound r
      → (ps : List Pass) × (Access.candidates_of p q r ≡ ok ps)
        × ((x : Pass) → In x ps → In x q.passes)
        × (ps ≢ [])
  unfolding Access.candidates_of
  candidates_of-total r found = elim (Bool-cases (Access.is_duplicated q r.pass_id)) [
    | inl e ↦ (
      sort_by (Access.copy_order p) (Access.copies_of q r.pass_id),
      rw (e, Access.candidates_of),
      λ x i. (copies_of-In q r.pass_id x (In-sort_by _ x _ i)).0,
      copied e,
    )
    | inr n ↦ elim (Option-cases (Access.by_id q r.pass_id)) [
      | inl e ↦ absurd (ground (arith, found))
      | inr (x, e) ↦ (
        x ∷ [],
        rw (n, e, Access.candidates_of),
        λ y i. elim i [ inl same ↦ rw same (by_id-In q r.pass_id x e).0 | inr j ↦ absurd j ],
        λ f. cc,
      )
    ]
  ]
    where
      copied :
          Access.is_duplicated q r.pass_id ≡ true
          → sort_by (Access.copy_order p) (Access.copies_of q r.pass_id) ≢ []
      copied e =
          let (x, i) = copy_of q r.pass_id e in
          In-ne-nil x _ (sort_by-In (Access.copy_order p) x _ i)

  pub candidates-total :
      (rs : List Registration)
      → ((r : Registration) → In r rs → IsFound r)
      → (ps : List Pass) × (Access.candidates p q rs ≡ ok ps)
        × ((x : Pass) → In x ps → In x q.passes)
        × (rs ≢ [] → ps ≢ [])
  unfolding Access.candidates
  candidates-total [] found = ([], refl, λ x m. absurd m, λ n. absurd (n refl))
  candidates-total (r ∷ rs) found =
      let (xs, e, inx, ne) = candidates_of-total r (found r (inl refl)) in
      let (ys, es, iny, _) = candidates-total rs (λ s i. found s (inr i)) in
      (
        xs ++ ys,
        rw (e, es),
        λ x m. elim (append-In x xs ys m) [ inl i ↦ inx x i | inr i ↦ iny x i ],
        λ _. append-ne-nil xs ys ne,
      )

  pub settle-Returns :
      (rs hanging : List Registration) (twice : List Text) (answers : List Access.Answer)
      → All (IsAnswer q) answers
      → answers ≢ []
      → Returns (IsAnswer q) (Access.settle q rs hanging twice answers)
  unfolding Access.settle
  settle-Returns rs hanging twice [] h ne = absurd (ne refl)
  settle-Returns rs hanging twice (a ∷ more) h ne =
      elim (Option-cases (find Access.is_covered (a ∷ more))) [
        | inr (b, e) ↦
            rw (e, Access.settle)
              (note-IsAnswer q _ b (find-All (IsAnswer q) Access.is_covered (a ∷ more) b h e))
        | inl e ↦ elim (Bool-cases (Access.only_twice rs hanging twice)) [
          | inl o ↦
              rw (e, Access.settle)
                (rw o
                  (note-IsAnswer q _ _ (answer_not_covered-IsAnswer q Reason.pass_duplicated none)))
          | inr n ↦ rw (e, Access.settle) (rw n (note-IsAnswer q _ a h.0))
        ]
      ]
