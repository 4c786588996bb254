-- ===== src/Base/Lists.antt =====
-- Lists measured by native numbers, and the row operations that a table scan makes.
use Prim.Native.Nat.{ℕ, suc, ◌+◌}
use mathlib.Core.Path.{◌≡◌, refl, ap}
use mathlib.Core.Path.{subst}
use mathlib.Core.Logic.{inl, inr}
use mathlib.Core.Bool.{Bool, true, false, ◌||◌}
use mathlib.Core.Option.{Option, none, some}
use mathlib.Core.List.{List, [], ◌∷◌, ◌++◌}
use native.Mathlib.Omega.{arith}
use likecoin_op.Base.Tests.{if◌then◌else◌, ◌==◌, Bool-cases}

module _ {ℓ} {A : Type ℓ} where
  abbrev pub length : List A → ℕ
  length [] = 0
  length (x ∷ xs) = suc (length xs)

  pub length-append : (xs ys : List A) → length (xs ++ ys) ≡ length xs + length ys
  length-append [] ys = omega arith
  length-append (x ∷ xs) ys = omega (arith, length-append xs ys)

  -- The first row that passes the test of a WHERE clause.
  abbrev pub find : (A → Bool) → List A → Option A
  find p [] = none
  find p (x ∷ xs) = if p x then some x else find p xs

  -- Some row passes the test.
  abbrev pub any : (A → Bool) → List A → Bool
  any p [] = false
  any p (x ∷ xs) = p x || any p xs

  -- The rows that pass the test.
  abbrev pub keep : (A → Bool) → List A → List A
  keep p [] = []
  keep p (x ∷ xs) = let rest = keep p xs in if p x then x ∷ rest else rest

  -- UPDATE: every row that passes the test is replaced.
  abbrev pub replace : (A → Bool) → (A → A) → List A → List A
  replace p f [] = []
  replace p f (x ∷ xs) = (if p x then f x else x) ∷ replace p f xs

  pub length-replace :
      (p : A → Bool) (f : A → A) (xs : List A) → length (replace p f xs) ≡ length xs
  length-replace p f [] = refl
  length-replace p f (x ∷ xs) = ap suc (length-replace p f xs)

-- Every element has the property; it computes to a tuple.
abbrev pub All {ℓ κ} : {A : Type ℓ} → (A → Type κ) → List A → Type κ
All P [] = Unit
All P (x ∷ xs) = P x × All P xs

-- The number stands in the list.
abbrev pub contains : List ℕ → ℕ → Bool
contains [] a = false
contains (x ∷ xs) a = (x == a) || contains xs a

-- What a search finds passes its test.
pub find-holds {ℓ} :
    {A : Type ℓ} (p : A → Bool) (xs : List A) {a : A} → find p xs ≡ some a → p a ≡ true
find-holds p [] h = cc
find-holds p (x ∷ xs) {a} h = elim (Bool-cases (p x)) [
  | inl found ↦ let same : x ≡ a = ground (arith, found, h) in ground (arith, found, ap p same)
  | inr other ↦ find-holds p xs {a = a} (ground (arith, other, h))
]

-- What a search finds has what all rows have.
pub find-All {ℓ κ} :
    {A : Type ℓ} (P : A → Type κ) (p : A → Bool) (xs : List A) {a : A}
    → All P xs
    → find p xs ≡ some a
    → P a
find-All P p [] all h = cc
find-All P p (x ∷ xs) {a} all h = elim (Bool-cases (p x)) [
  | inl found ↦ let same : x ≡ a = ground (arith, found, h) in subst P same all.0
  | inr other ↦ find-All P p xs {a = a} all.1 (ground (arith, other, h))
]

-- A row is overwritten: the search that found it finds what was written.
pub find-replace {ℓ} :
    {A : Type ℓ} (p q : A → Bool) (xs : List A) {a : A} (b : A)
    → find p xs ≡ some a
    → q a ≡ true
    → p b ≡ true
    → find p (replace q (λ _. b) xs) ≡ some b
find-replace p q [] b h qa pb = cc
find-replace p q (x ∷ xs) {a} b h qa pb = elim (Bool-cases (q x)) [
  | inl hit ↦ rw hit (rw pb)
  | inr miss ↦ elim (Bool-cases (p x)) [
    | inl found ↦
        let same : x ≡ a = ground (arith, found, h) in absurd (ground (arith, miss, qa, ap q same))
    | inr other ↦
        rw miss (rw other (find-replace p q xs {a = a} b (ground (arith, other, h)) qa pb))
  ]
]

-- A search that finds another row, or none, finds the same afterwards.
pub find-replace_other {ℓ} :
    {A : Type ℓ} (p q : A → Bool) (xs : List A) (b : A)
    → ((a : A) → find p xs ≡ some a → q a ≡ false)
    → p b ≡ false
    → find p (replace q (λ _. b) xs) ≡ find p xs
find-replace_other p q [] b h pb = refl
find-replace_other p q (x ∷ xs) b h pb = elim (Bool-cases (p x)) [
  | inl found ↦ let miss : q x ≡ false = h x (ground (arith, found)) in rw (miss, found)
  | inr other ↦
      let rest = find-replace_other p q xs b (λ a e. h a (ground (arith, other, e))) pb in
      elim (Bool-cases (q x)) [
        | inl hit ↦ rw (hit, pb, other) rest
        | inr miss ↦ rw (miss, other) rest
      ]
]

-- Some row passes the test that a search has passed.
pub find-any {ℓ} :
    {A : Type ℓ} (p q : A → Bool) (xs : List A) {a : A}
    → find p xs ≡ some a
    → q a ≡ true
    → any q xs ≡ true
find-any p q [] h qa = cc
find-any p q (x ∷ xs) {a} h qa = elim (Bool-cases (p x)) [
  | inl found ↦ let same : x ≡ a = ground (arith, found, h) in ground (arith, ap q same, qa)
  | inr other ↦ ground (arith, find-any p q xs {a = a} (ground (arith, other, h)) qa)
]

pub All-replace {ℓ κ} :
    {A : Type ℓ} (P : A → Type κ) (q : A → Bool) (b : A) (xs : List A)
    → All P xs
    → P b
    → All P (replace q (λ _. b) xs)
All-replace P q b [] all pb = all
All-replace P q b (x ∷ xs) all pb = elim (Bool-cases (q x)) [
  | inl hit ↦ rw hit (pb, All-replace P q b xs all.1 pb)
  | inr miss ↦ rw miss (all.0, All-replace P q b xs all.1 pb)
]

abbrev pub map_option {ℓ κ} : {A : Type ℓ} {B : Type κ} → (A → B) → Option A → Option B
map_option f none = none
map_option f (some a) = some (f a)

-- An update that keeps the test is seen by a search with that test.
pub find-replace_same {ℓ} :
    {A : Type ℓ} (q : A → Bool) (f : A → A) (xs : List A)
    → ((x : A) → q (f x) ≡ q x)
    → find q (replace q f xs) ≡ map_option f (find q xs)
find-replace_same q f [] keeps = refl
find-replace_same q f (x ∷ xs) keeps = elim (Bool-cases (q x)) [
  | inl hit ↦ rw hit (rw (keeps x) (rw hit refl))
  | inr miss ↦ rw miss (rw miss (find-replace_same q f xs keeps))
]

-- A search whose test no updated row passes finds the same.
pub find-replace_apart {ℓ} :
    {A : Type ℓ} (p q : A → Bool) (f : A → A) (xs : List A)
    → ((x : A) → q x ≡ true → p x ≡ false)
    → ((x : A) → p (f x) ≡ p x)
    → find p (replace q f xs) ≡ find p xs
find-replace_apart p q f [] apart keeps = refl
find-replace_apart p q f (x ∷ xs) apart keeps =
    let rest = find-replace_apart p q f xs apart keeps in
    elim (Bool-cases (q x)) [
      | inl hit ↦ rw hit (rw (keeps x) (rw (apart x hit) rest))
      | inr miss ↦ elim (Bool-cases (p x)) [
        | inl found ↦ rw miss (rw found refl)
        | inr other ↦ rw miss (rw other rest)
      ]
    ]

-- What is kept is empty where nothing is found.
pub find-keep {ℓ} :
    {A : Type ℓ} (p : A → Bool) (xs : List A) {a : A} {rest : List A}
    → keep p xs ≡ a ∷ rest
    → find p xs ≡ some a
find-keep p [] h = cc
find-keep p (x ∷ xs) {a} {rest} h = elim (Bool-cases (p x)) [
  | inl found ↦ ground (arith, found, h)
  | inr other ↦ rw other (find-keep p xs {a = a} {rest = rest} (ground (arith, other, h)))
]

-- What one search has found, another search with a test that it passes finds something.
pub find-finds {ℓ} :
    {A : Type ℓ} (p q : A → Bool) (xs : List A) {a : A}
    → find p xs ≡ some a
    → q a ≡ true
    → (b : A) × (find q xs ≡ some b)
find-finds p q [] h qa = cc
find-finds p q (x ∷ xs) {a} h qa = elim (Bool-cases (q x)) [
  | inl hit ↦ (x, rw hit refl)
  | inr miss ↦ elim (Bool-cases (p x)) [
    | inl found ↦
        let same : x ≡ a = ground (arith, found, h) in absurd (ground (arith, miss, qa, ap q same))
    | inr next ↦
        let (b, e) = find-finds p q xs {a = a} (ground (arith, next, h)) qa in (b, rw miss e)
  ]
]
