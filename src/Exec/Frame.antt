-- ===== src/Exec/Frame.antt =====
-- What an action keeps, from one world to the next: rules for a reflexive and transitive relation that
-- ignores the call counter.
use likecoin_op.Base.{ℕ, suc, Bool, true, false, Option, none, some, if◌then◌else◌}
use likecoin_op.Exec.{
  exec, World, Result, ok, err, stop, Error, Stop, Exec, pure, raise, halt, ◌>>=◌, ◌>>◌, error_of,
  check, bump, outside, db_call, begin_tx, db_error,
}

-- A relation on worlds that holds along every action that changes nothing.
pub record Frame {T C : Type 0} (R : World T C → World T C → Type 0) : Type 0 where
  pub same : (w : World T C) → R w w
  pub trans : (u v w : World T C) → R u v → R v w → R u w
  pub tick : (w : World T C) → R w (bump w)

-- Along every run of the action the relation holds.
pub record Keeps {T C A : Type 0} (R : World T C → World T C → Type 0) (m : Exec T C A)
    : Type 0 where
  pub at : (w : World T C) → R w (m w).1

module _ {T C : Type 0} {R : World T C → World T C → Type 0} (F : Frame R) where
  module _ {A : Type 0} where
    pub Keeps-pure : (a : A) → Keeps R (pure a)
    unfolding exec
    Keeps-pure a = record { at = F.same }

    pub Keeps-raise : (e : Error) → Keeps {A = A} R (raise e)
    unfolding exec
    Keeps-raise e = record { at = F.same }

    pub Keeps-halt : (s : Stop) → Keeps {A = A} R (halt s)
    unfolding exec
    Keeps-halt s = record { at = F.same }

    pub Keeps-outside : (answer : ℕ → Option A) (e : Error) → Keeps R (outside answer e)
    unfolding exec
    Keeps-outside answer e = record { at = λ w. go w (answer w.tick) }
      where
        go :
            (w : World T C) (o : Option A)
            → R w
                (let r : Result A × World T C = elim o [
                  | none ↦ (err e, bump w)
                  | some a ↦ (ok a, bump w)
                ] in
                  r).1
        go w none = F.tick w
        go w (some a) = F.tick w

    pub Keeps-if :
        (b : Bool) (m n : Exec T C A) → Keeps R m → Keeps R n → Keeps R (if b then m else n)
    Keeps-if true m n km kn = km
    Keeps-if false m n km kn = kn

  module _ {A B : Type 0} where
    pub Keeps-check :
        (m : Exec T C A) (h : Error → Exec T C B) (k : A → Exec T C B)
        → Keeps R m
        → ((e : Error) → Keeps R (h e))
        → ((a : A) → Keeps R (k a))
        → Keeps R (check m h k)
    unfolding exec
    Keeps-check m h k km kh kk = record { at = λ w. go w (m w).1 (m w).0 (km.at w) }
      where
        go :
            (u v : World T C) (r : Result A)
            → R u v
            → R u
                (let s : Result B × World T C = elim r [
                  | ok a ↦ k a v
                  | err e ↦ h e v
                  | stop s ↦ (stop s, v)
                ] in
                  s).1
        go u v (ok a) p = F.trans u v _ p ((kk a).at v)
        go u v (err e) p = F.trans u v _ p ((kh e).at v)
        go u v (stop s) p = p

    pub Keeps-bind :
        (m : Exec T C A) (k : A → Exec T C B)
        → Keeps R m
        → ((a : A) → Keeps R (k a))
        → Keeps R (m >>= k)
    unfolding exec
    Keeps-bind m k km kk = Keeps-check m raise k km Keeps-raise kk

  module _ {A : Type 0} (fault : ℕ → Bool) where
    pub Keeps-db_call :
        (f : T → Result A × T)
        → ((w : World T C) → R w (record w { tick = suc w.tick; db = (f w.db).1 }))
        → Keeps R (db_call fault f)
    unfolding exec
    Keeps-db_call f h = record { at = λ w. go w (fault w.tick) }
      where
        go :
            (w : World T C) (b : Bool)
            → R w
                (let s : Result A × World T C = elim b [
                  | true ↦ (err db_error, bump w)
                  | false ↦ ((f w.db).0, record w { tick = suc w.tick; db = (f w.db).1 })
                ] in
                  s).1
        go w true = F.tick w
        go w false = h w

pub Keeps-begin_tx :
    {T C : Type 0} {R : World T C → World T C → Type 0} (F : Frame R) (fault : ℕ → Bool)
    → Keeps R (begin_tx fault)
unfolding exec
Keeps-begin_tx F fault = Keeps-db_call F fault (λ t. (ok t, t)) F.tick

pub ruleset keeps_rules = (
  Keeps-pure, Keeps-raise, Keeps-halt, Keeps-outside, Keeps-if, Keeps-bind, Keeps-check,
  Keeps-begin_tx,
)

-- What is done before an error is passed on.
pub Keeps-then_raise :
    {T C A B : Type 0} {R : World T C → World T C → Type 0} (F : Frame R) (m : Exec T C A)
    (x : Error)
    → Keeps R m
    → Keeps {A = B} R (error_of m >> raise x)
Keeps-then_raise F m x k =
    Keeps-bind F (error_of m) (λ _. raise x)
      (Keeps-check F m _ _ k (λ e. Keeps-pure F (some e)) (λ _. Keeps-pure F none))
      (λ _. Keeps-raise F x)
