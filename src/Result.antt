-- ===== src/Result.antt =====
-- What a call of the program ends in: a value, the exception `Refused`, or another Python
-- exception, which the program means never to raise.
use garage_pass.Base.{
  ◌≡◌, refl, sym, subst, In, inl, inr, ◌↔◌, Bool, true, false, List, [], ◌∷◌, Option, none, some,
  arith,
}
use garage_pass.Findings.{Code, Field, Refused}

pub data Crash : Type 0 where
  assertion_error key_error index_error type_error overflow_error database_error : Crash
  timezone_database_unavailable : Crash

pub data Result {ℓ} (A : Type ℓ) : Type ℓ where
  ok : A → Result A
  refuse : Refused → Result A
  crash : Crash → Result A

-- A call and what is done with its value: both exceptions pass through.
infixl 5 ◌>>=◌ ◌>>◌
abbrev pub ◌>>=◌ {ℓ κ} : {A : Type ℓ} {B : Type κ} → Result A → (A → Result B) → Result B
crash why >>= next = crash why
refuse r >>= next = refuse r
ok value >>= next = next value

abbrev pub ◌>>◌ {κ} : {B : Type κ} → Result (Unit {0}) → Result B → Result B
check >> next = check >>= λ done. next

-- `raise Refused(code, field, …)`
abbrev pub raise {ℓ} : {A : Type ℓ} → Code → Field → Result A
raise c f = refuse (record { code = c; field = f })

-- `if test: raise Refused(code, field, …)`
abbrev pub refuse_if : Bool → Code → Field → Result (Unit {0})
refuse_if true c f = raise c f
refuse_if false c f = ok tt

-- A value that must be there, or the exception that its absence raises.
abbrev pub or_crash {ℓ} : {A : Type ℓ} → Option A → Crash → Result A
or_crash none c = crash c
or_crash (some a) c = ok a

-- `for x in xs: f(x)`, where `f` may raise.
abbrev pub for_each {ℓ} : {A : Type ℓ} → (A → Result (Unit {0})) → List A → Result (Unit {0})
for_each f [] = ok tt
for_each f (x ∷ xs) = f x >> for_each f xs

-- `[f(x) for x in xs]`, where `f` may raise.
abbrev pub map_all {ℓ κ} : {A : Type ℓ} {B : Type κ} → (A → Result B) → List A → Result (List B)
map_all f [] = ok []
map_all f (x ∷ xs) = f x >>= λ y. map_all f xs >>= λ ys. ok (y ∷ ys)

-- A chain that gave a value: its first call gave one too.
module _ {ℓ κ} {A : Type ℓ} {B : Type κ} where
  pub >>=-eq-ok :
      (first : Result A) (next : A → Result B) {end : B}
      → (first >>= next) ≡ ok end
      → (value : A) × (first ≡ ok value) × (next value ≡ ok end)
  >>=-eq-ok (crash why) next h = cc
  >>=-eq-ok (refuse r) next h = cc
  >>=-eq-ok (ok value) next h = (value, refl, h)

pub ok-inj : {A : Type 0} {a b : A} → ok a ≡ ok b → a ≡ b
ok-inj e = cc

pub refuse_if-ok : (b : Bool) (c : Code) (f : Field) → (refuse_if b c f ≡ ok tt) ↔ (b ≡ false)
refuse_if-ok b c f = ground arith

-- Two checks in a row pass exactly when both do.
pub >>-ok : (m k : Result (Unit {0})) → ((m >> k) ≡ ok tt) ↔ ((m ≡ ok tt) × (k ≡ ok tt))
>>-ok (ok tt) k = (λ h. (refl, h), λ h. h.1)
>>-ok (refuse r) k = (λ h. cc, λ h. cc)
>>-ok (crash c) k = (λ h. cc, λ h. cc)

-- The results of the calls over a list, and the elements that they were of.
pub map_all-In :
    {A B : Type 0} (f : A → Result B) (xs : List A) {ys : List B} (y : B)
    → map_all f xs ≡ ok ys
    → In y ys
    → (x : A) × In x xs × (f x ≡ ok y)
map_all-In f [] {ys = ys} y h m =
    let same : [] ≡ ys = cc in absurd (subst (λ l. In y l) (sym same) m)
map_all-In f (x ∷ xs) {ys = ys} y h m =
    let (z, e, h1) = >>=-eq-ok (f x) _ h in
    let (zs, es, h2) = >>=-eq-ok (map_all f xs) (λ ys. ok (z ∷ ys)) h1 in
    let same : z ∷ zs ≡ ys = cc in
    elim (subst (λ l. In y l) (sym same) m) [
      | inl k ↦ (x, inl refl, rw k e)
      | inr i ↦ let (v, j, k) = map_all-In f xs y es i in (v, inr j, k)
    ]

pub In-map_all :
    {A B : Type 0} (f : A → Result B) (xs : List A) {ys : List B} (x : A)
    → map_all f xs ≡ ok ys
    → In x xs
    → (y : B) × In y ys × (f x ≡ ok y)
In-map_all f [] x h m = absurd m
In-map_all f (x2 ∷ xs) {ys} x h m =
    let (z, e, h1) = >>=-eq-ok (f x2) _ h in
    let (zs, es, h2) = >>=-eq-ok (map_all f xs) (λ ys. ok (z ∷ ys)) h1 in
    let same : z ∷ zs ≡ ys = cc in
    elim m [
      | inl q ↦ (z, subst (λ l. In z l) same (inl refl), rw q e)
      | inr i ↦ let (y, j, k) = In-map_all f xs x es i in (y, subst (λ l. In y l) same (inr j), k)
    ]

-- The call returns, and what it returns satisfies the predicate.
abbrev pub Returns {ℓ} : {A : Type ℓ} → (A → Type 0) → Result A → Type 0
Returns P (ok a) = P a
Returns P (refuse r) = ⊥
Returns P (crash c) = ⊥

pub Returns-bind :
    {A B : Type 0} (P : A → Type 0) (Q : B → Type 0) (m : Result A) (f : A → Result B)
    → Returns P m
    → ((a : A) → P a → Returns Q (f a))
    → Returns Q (m >>= f)
Returns-bind P Q (ok a) f h k = k a h
Returns-bind P Q (refuse r) f h k = absurd h
Returns-bind P Q (crash c) f h k = absurd h

pub Returns-ok :
    {A : Type 0} (P : A → Type 0) (m : Result A) → Returns P m → (a : A) × (m ≡ ok a) × P a
Returns-ok P (ok a) h = (a, refl, h)
Returns-ok P (refuse r) h = absurd h
Returns-ok P (crash c) h = absurd h
