-- ===== src/Exec/Steps.antt =====
-- The steps of an action, taken apart: what each must have been where the whole returns.
use likecoin_op.Base.{ℕ, suc, ◌≡◌, refl, Bool, true, false, arith}
use likecoin_op.Exec.{
  exec, World, Result, ok, err, stop, Error, Stop, Exec, raise, ◌>>=◌, check, bump, db_call,
  db_error,
}

-- A chain that returns has passed each of its steps.
pub bind-eq-ok :
    {T C A B : Type 0} (m : Exec T C A) (k : A → Exec T C B) (w : World T C) {b : B}
    → ((m >>= k) w).0 ≡ ok b
    → (a : A) × ((m w).0 ≡ ok a) × ((k a (m w).1).0 ≡ ok b)
unfolding exec
bind-eq-ok {T} {C} {A} {B} m k w {b} h = go (m w).0 refl h
  where
    go :
        (r : Result A)
        → (m w).0 ≡ r
        → (let s : Result B × World T C = elim r [
          | ok a ↦ k a (m w).1
          | err e ↦ (err e, (m w).1)
          | stop s ↦ (stop s, (m w).1)
        ] in
            s).0
          ≡ ok b
        → (a : A) × ((m w).0 ≡ ok a) × ((k a (m w).1).0 ≡ ok b)
    go (ok a) e p = (a, e, p)
    go (err x) e p = cc
    go (stop x) e p = cc

-- Whatever holds after each outcome of the first step holds after a `check`.
pub check-cases :
    {T C A B : Type 0} (P : World T C → Type 0) (m : Exec T C A) (h : Error → Exec T C B)
    (k : A → Exec T C B) (w : World T C)
    → ((a : A) → (v : World T C) → m w ≡ (ok a, v) → P (k a v).1)
    → ((e : Error) → (v : World T C) → m w ≡ (err e, v) → P (h e v).1)
    → ((s : Stop) → (v : World T C) → m w ≡ (stop s, v) → P v)
    → P (check m h k w).1
unfolding exec
check-cases {T} {C} {A} {B} P m h k w ka kh ks = go (m w).0 (m w).1 refl
  where
    go :
        (r : Result A) (v : World T C)
        → m w ≡ (r, v)
        → P
            (let s : Result B × World T C = elim r [
              | ok a ↦ k a v
              | err e ↦ h e v
              | stop s ↦ (stop s, v)
            ] in
              s).1
    go (ok a) v e = ka a v e
    go (err x) v e = kh x v e
    go (stop x) v e = ks x v e

-- The same of the result and the world together.
pub check-result :
    {T C A B : Type 0} (P : Result B × World T C → Type 0) (m : Exec T C A) (h : Error → Exec T C B)
    (k : A → Exec T C B) (w : World T C)
    → ((a : A) → (v : World T C) → m w ≡ (ok a, v) → P (k a v))
    → ((e : Error) → (v : World T C) → m w ≡ (err e, v) → P (h e v))
    → ((s : Stop) → (v : World T C) → m w ≡ (stop s, v) → P (stop s, v))
    → P (check m h k w)
unfolding exec
check-result {T} {C} {A} {B} P m h k w ka kh ks = go (m w).0 (m w).1 refl
  where
    go :
        (r : Result A) (v : World T C)
        → m w ≡ (r, v)
        → P (elim r [ ok a ↦ k a v | err e ↦ h e v | stop s ↦ (stop s, v) ])
    go (ok a) v e = ka a v e
    go (err x) v e = kh x v e
    go (stop x) v e = ks x v e

-- A statement that succeeds has written what it computes from the tables.
pub db_call-eq-ok :
    {T C A : Type 0} (fault : ℕ → Bool) (f : T → Result A × T) (w v : World T C) {a : A}
    → db_call fault f w ≡ (ok a, v)
    → v ≡ record w { tick = suc w.tick; db = (f w.db).1 }
unfolding exec
db_call-eq-ok fault f w v h = ground arith

-- No statement reaches the network.
pub db_call-net :
    {T C A : Type 0} (fault : ℕ → Bool) (f : T → Result A × T) (w v : World T C) {r : Result A}
    → db_call fault f w ≡ (r, v)
    → v.net ≡ w.net
unfolding exec
db_call-net fault f w v h = ground arith

-- A `check` that passes its errors on returns just where each of its steps returns.
pub check-eq-ok :
    {T C A B : Type 0} (m : Exec T C A) (k : A → Exec T C B) (w v : World T C) {b : B}
    → check m raise k w ≡ (ok b, v)
    → (a : A) × (u : World T C) × (m w ≡ (ok a, u)) × (k a u ≡ (ok b, v))
unfolding exec
check-eq-ok {T} {C} {A} {B} m k w v {b} h = go (m w).0 (m w).1 refl h
  where
    go :
        (r : Result A) (u : World T C)
        → m w ≡ (r, u)
        → (let s : Result B × World T C = elim r [
          | ok a ↦ k a u
          | err e ↦ (err e, u)
          | stop s ↦ (stop s, u)
        ] in
            s)
          ≡ (ok b, v)
        → (a : A) × (u' : World T C) × (m w ≡ (ok a, u')) × (k a u' ≡ (ok b, v))
    go (ok a) u e p = (a, u, e, p)
    go (err x) u e p = cc
    go (stop x) u e p = cc

-- The two ways of a statement.
module _ {T C A : Type 0} (fault : ℕ → Bool) (f : T → Result A × T) (w : World T C) where
  pub db_call-down : fault w.tick ≡ true → db_call fault f w ≡ (err db_error, bump w)
  unfolding exec
  db_call-down h = ground (arith, h)

  pub db_call-up :
      fault w.tick ≡ false
      → db_call fault f w ≡ ((f w.db).0, record w { tick = suc w.tick; db = (f w.db).1 })
  unfolding exec
  db_call-up h = ground (arith, h)

-- The two ways of a `check`.
module _ {T C A B : Type 0} (m : Exec T C A) (h : Error → Exec T C B) (k : A → Exec T C B)
    (w u : World T C) where
  pub check-ok : (a : A) → m w ≡ (ok a, u) → check m h k w ≡ k a u
  unfolding exec
  check-ok a e = ground (arith, e)

  pub check-err : (x : Error) → m w ≡ (err x, u) → check m h k w ≡ h x u
  unfolding exec
  check-err x e = ground (arith, e)

-- Where the action returns, the property holds of the world.
pub record Ends {T C A : Type 0} (P : World T C → Type 0) (m : Exec T C A) : Type 0 where
  pub at : (w v : World T C) (a : A) → m w ≡ (ok a, v) → P v

-- A chain ends as its last step does.
pub Ends-check :
    {T C A B : Type 0} {P : World T C → Type 0} (m : Exec T C A) (k : A → Exec T C B)
    → ((a : A) → Ends P (k a))
    → Ends P (check m raise k)
Ends-check m k h = record {
  at = λ w v b e. let (a, u, p, q) = check-eq-ok m k w v {b = b} e in (h a).at u v b q;
}

-- A statement that succeeds returns what it computes from the tables.
pub db_call-result :
    {T C A : Type 0} (fault : ℕ → Bool) (f : T → Result A × T) (w v : World T C) {a : A}
    → db_call fault f w ≡ (ok a, v)
    → (f w.db).0 ≡ ok a
unfolding exec
db_call-result fault f w v h = ground arith
