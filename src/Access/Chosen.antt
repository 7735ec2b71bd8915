-- ===== src/Access/Chosen.antt =====
-- access.py: the candidate that the covered answer of an exit comes from.
use garage_pass.Base.{
  ◌≡◌, refl, sym, subst, inl, inr, Bool, true, false, List, [], ◌∷◌, ◌++◌, none, some, Text, In,
  arith, Bool-cases, Option-cases, find, sort_by, In-sort_by, append-In,
}
use garage_pass.Result.{Crash, ok, ◌>>=◌, >>=-eq-ok, or_crash}
use garage_pass.Findings.{Reason}
use garage_pass.Platform.{Platform}
use garage_pass.Passes.{Pass, Registration}
use garage_pass.Access
use garage_pass.Access.Entitling.{not_covered-covering}
use garage_pass.Access.Named.{IfReturns}
use garage_pass.Access.Found.{by_id-In, copies_of-In}

find-In :
    {A : Type 0} (f : A → Bool) (xs : List A) (y : A) → find f xs ≡ some y → In y xs × (f y ≡ true)
find-In f [] y h = cc
find-In f (x ∷ xs) y h = elim (Bool-cases (f x)) [
  | inl t ↦ let same : x ≡ y = ground (arith, h, t) in (inl (sym same), rw same at t)
  | inr n ↦ let (i, k) = find-In f xs y (rw n at h) in (inr i, k)
]

-- If the answer covers, it names the pass of one of the answers, which covers.
abbrev pub IsOneOf : List Access.Answer → Access.Answer → Type 0
IsOneOf answers a =
    Access.is_covered a ≡ true
    → (b : Access.Answer) × In b answers × (Access.is_covered b ≡ true) × (a.pass_id ≡ b.pass_id)

module _ (p : Platform) (q : Access.Question) where
  candidates_of-In :
      (r : Registration) {ps : List Pass} (x : Pass)
      → Access.candidates_of p q r ≡ ok ps
      → In x ps
      → In x q.passes
        × (x.id ≡ r.pass_id)
        × (Access.is_duplicated q r.pass_id ≡ false → In q.garage.id x.garage_ids)
  unfolding Access.candidates_of
  candidates_of-In r {ps = ps} x h m = elim (Bool-cases (Access.is_duplicated q r.pass_id)) [
    | inl e ↦
        let same : sort_by (Access.copy_order p) (Access.copies_of q r.pass_id) ≡ ps =
          ground (arith, e, h) in
        let i = In-sort_by (Access.copy_order p) x _ (subst (λ l. In x l) (sym same) m) in
        let (k, on) = copies_of-In q r.pass_id x i in (k, on, λ n. absurd (ground (arith, e, n)))
    | inr n ↦
        let (y, e, h1) =
          >>=-eq-ok (or_crash (Access.by_id q r.pass_id) Crash.key_error) (λ pass. ok (pass ∷ []))
            (rw n at h) in
        let found : Access.by_id q r.pass_id ≡ some y = ground (arith, e) in
        let (k, on, named, _) = by_id-In q r.pass_id y found in
        let same : y ∷ [] ≡ ps = cc in
        elim (subst (λ l. In x l) (sym same) m) [
          | inl o ↦ (subst (λ z. In z q.passes) (sym o) k, rw o on, λ _. rw o named)
          | inr f ↦ absurd f
        ]
  ]

  pub candidates-In :
      (rs : List Registration) {ps : List Pass} (x : Pass)
      → Access.candidates p q rs ≡ ok ps
      → In x ps
      → (r : Registration) × In r rs
        × In x q.passes
        × (x.id ≡ r.pass_id)
        × (Access.is_duplicated q r.pass_id ≡ false → In q.garage.id x.garage_ids)
  unfolding Access.candidates
  candidates-In [] {ps = ps} x h m =
      let same : [] ≡ ps = cc in absurd (subst (λ l. In x l) (sym same) m)
  candidates-In (r ∷ rs) {ps = ps} x h m =
      let (ys, e, h1) = >>=-eq-ok (Access.candidates_of p q r) _ h in
      let (zs, es, h2) = >>=-eq-ok (Access.candidates p q rs) (λ rest. ok (ys ++ rest)) h1 in
      let same : ys ++ zs ≡ ps = cc in
      elim (append-In x ys zs (subst (λ l. In x l) (sym same) m)) [
        | inl i ↦ let (k, e2, g) = candidates_of-In r x e i in (r, inl refl, k, e2, g)
        | inr i ↦ let (s, j, k, e2, g) = candidates-In rs x es i in (s, inr j, k, e2, g)
      ]

  -- A covered answer of an exit is one of the answers, with the inconsistencies noted.
  pub settle-In :
      (rs hanging : List Registration) (twice : List Text) (answers : List Access.Answer)
      → IfReturns (IsOneOf answers) (Access.settle q rs hanging twice answers)
  unfolding Access.settle
  settle-In rs hanging twice answers = elim (Option-cases (find Access.is_covered answers)) [
    | inr (b, e) ↦
        rw (e, Access.settle)
          (λ _. let (i, c) = find-In Access.is_covered answers b e in (b, i, c, refl))
    | inl e ↦ elim (Bool-cases (Access.only_twice rs hanging twice)) [
      | inl o ↦
          rw (e, Access.settle)
            (rw o
              (λ c. absurd (ground (arith, c, not_covered-covering q Reason.pass_duplicated none))))
      | inr n ↦ rw (e, Access.settle) (rw n (first answers e))
    ]
  ]
    where
      first :
          (xs : List Access.Answer)
          → find Access.is_covered xs ≡ none
          → IfReturns (IsOneOf answers) (
              or_crash (Access.first_answer xs) Crash.index_error >>= λ a.
              ok (Access.note (Access.inconsistencies q rs hanging twice) a))
      first [] e = tt
      first (x ∷ xs) e = λ c. absurd (ground (arith, c, e))
