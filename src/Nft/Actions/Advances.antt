-- ===== src/Nft/Actions/Advances.antt =====
-- How an operation may change the rows of the new classes and the announcements.
-- (migration-backend/pkg/logic/likenft)
use likecoin_op.Base.{
  ℕ, suc, ◌<◌, ◌≡◌, refl, sym, ap, ◌∙◌, inl, inr, false, some, List, [], ◌∷◌, ◌==◌, find, any, All,
  arith, Text, Bool-cases, find-All, find-any, find-holds, Option-cases,
}
use mathlib.Core.Path.{subst}
use likecoin_op.Exec.Frame.{Frame, Keeps}
use likecoin_op.Nft.Actions.Model.{
  ActionStatus, LikeNftMigrationActionNewClass, Request, Action, State,
}
use likecoin_op.Ethereum.{create_evm_transaction_request, send}
use likecoin_op.Nft.Actions.Calls.{Env}
use likecoin_op.Ethereum.Quiet.{send-Keeps}
use likecoin_op.Nft.Actions.Sound.{
  Rows, of_class, row_of, has_id, announced, deployed, Sound, Stays,
}

abbrev pub SoundAt : State → Type 0
SoundAt w = Sound w.db.new_classes w.db.next_new_class w.net

-- The invariant holds afterwards, and the completed rows are as before.
pub record Advances (u v : State) : Type 0 where
  pub sound : SoundAt u → SoundAt v
  pub stays : SoundAt u → Stays u.db.new_classes v.db.new_classes

pub advances : Frame Advances
advances = record {
  same = λ w. record { sound = λ s. s; stays = λ s class a e d. e };
  trans = λ u v w p q. record {
    sound = λ s. q.sound (p.sound s);
    stays = λ s class a e d. q.stays (p.sound s) class a (p.stays s class a e d) d;
  };
  tick = λ w. record { sound = λ s. s; stays = λ s class a e d. e };
}

-- The new classes and the announcements are not touched.
pub record Untouched (u v : State) : Type 0 where
  pub rows : v.db.new_classes ≡ u.db.new_classes
  pub next : v.db.next_new_class ≡ u.db.next_new_class
  pub told : (class : Text) → announced class v.net ≡ announced class u.net

pub untouched : Frame Untouched
untouched = record {
  same = λ w. record { rows = refl; next = refl; told = λ class. refl };
  trans = λ u v w p q. record {
    rows = q.rows ∙ p.rows;
    next = q.next ∙ p.next;
    told = λ class. q.told class ∙ p.told class;
  };
  tick = λ w. record { rows = refl; next = refl; told = λ class. refl };
}

Sound-told :
    (rows : Rows) (next : ℕ) (net later : List Request)
    → ((class : Text) → announced class later ≡ announced class net)
    → Sound rows next net
    → Sound rows next later
Sound-told rows next net later e s = record {
  own = s.own;
  below = s.below;
  told = λ class. e class ∙ s.told class;
  identified = s.identified;
}

pub Untouched-SoundAt : (u v : State) → Untouched u v → SoundAt u → SoundAt v
Untouched-SoundAt u v h s =
    subst (λ rows. Sound rows v.db.next_new_class v.net) (sym h.rows)
      (subst (λ next. Sound u.db.new_classes next v.net) (sym h.next)
        (Sound-told u.db.new_classes u.db.next_new_class u.net v.net h.told s))

pub Untouched-Advances : (u v : State) → Untouched u v → Advances u v
Untouched-Advances u v h = record {
  sound = Untouched-SoundAt u v h;
  stays = λ s class a e d. ap (row_of class) h.rows ∙ e;
}

pub Untouched-Keeps : {A : Type 0} (m : Action A) → Keeps Untouched m → Keeps Advances m
Untouched-Keeps m k = record { at = λ w. Untouched-Advances w (m w).1 (k.at w) }

-- The calls of the new chain.
module _ (env : Env) where
  pub asked-Untouched :
      (r : Request)
      → ((class : Text) (net : List Request) → announced class (r ∷ net) ≡ announced class net)
      → Keeps Untouched (send env.chain r)
  unfolding create_evm_transaction_request
  asked-Untouched r silent = send-Keeps env.chain untouched r (record {
    at = λ w. record {
      rows = ground arith;
      next = ground arith;
      told = λ class. ground (arith, silent class w.net);
    };
  })

All-suc :
    (n : ℕ) (rows : Rows)
    → All (λ (a : LikeNftMigrationActionNewClass). a.id < n) rows
    → All (λ (a : LikeNftMigrationActionNewClass). a.id < suc n) rows
All-suc n [] h = tt
All-suc n (a ∷ rows) h = (omega (arith, h.0), All-suc n rows h.1)

-- A new row for a class that has none.
module _ (rows : Rows) (next : ℕ) (net : List Request) (a : LikeNftMigrationActionNewClass)
    (fresh : any
        (λ (b : LikeNftMigrationActionNewClass). b.cosmos_class_id == a.cosmos_class_id)
        rows
      ≡ false)
    (starts : a.status ≡ ActionStatus.init) (given_id : a.id ≡ next)
    (sound : Sound rows next net) where
  -- A row that is found has another id than the new one.
  older :
      (class : Text) (c : LikeNftMigrationActionNewClass)
      → row_of class rows ≡ some c
      → has_id c.id a ≡ false
  older class c e =
      let small : c.id < next =
        find-All (λ (x : LikeNftMigrationActionNewClass). x.id < next) (of_class class) rows {a = c}
          sound.below e in
      ground (arith, small)

  not_mine :
      (class : Text) (c : LikeNftMigrationActionNewClass)
      → row_of class rows ≡ some c
      → of_class class a ≡ false
  not_mine class c e = elim (Bool-cases (of_class class a)) [
    | inr other ↦ other
    | inl mine ↦
        let holds = find-holds (of_class class) rows {a = c} e in
        let taken =
          find-any (of_class class)
            (λ (b : LikeNftMigrationActionNewClass). b.cosmos_class_id == a.cosmos_class_id) rows
            {a = c} e (ground (arith, mine, holds)) in
        absurd (ground (arith, fresh, taken))
  ]

  pub insert-Stays : Stays rows (a ∷ rows)
  insert-Stays class c e done = rw (not_mine class c e) e

  own-inserted :
      (class : Text) (c : LikeNftMigrationActionNewClass)
      → row_of class (a ∷ rows) ≡ some c
      → find (has_id c.id) (a ∷ rows) ≡ some c
  own-inserted class c e = elim (Bool-cases (of_class class a)) [
    | inl mine ↦
        let eq : a ≡ c = ground (arith, mine, e) in
        subst (λ (x : LikeNftMigrationActionNewClass). find (has_id x.id) (a ∷ rows) ≡ some x) eq
          (ground arith)
    | inr other ↦
        let before : row_of class rows ≡ some c = ground (arith, other, e) in
        rw (older class c before) (sound.own class c before)
  ]

  told-inserted : (class : Text) → announced class net ≡ deployed (row_of class (a ∷ rows))
  told-inserted class = elim (Bool-cases (of_class class a)) [
    | inr other ↦ rw other (sound.told class)
    | inl mine ↦ elim (Option-cases (row_of class rows)) [
      | inl free ↦ rw (mine, starts) (sound.told class ∙ ap deployed free)
      | inr (c, e) ↦ absurd (ground (arith, mine, not_mine class c e))
    ]
  ]

  pub insert-Sound : Sound (a ∷ rows) (suc next) net
  insert-Sound = record {
    own = own-inserted;
    below = (ground (arith, given_id), All-suc next rows sound.below);
    told = told-inserted;
    identified = λ class c e done. elim (Bool-cases (of_class class a)) [
      | inl mine ↦
          let eq : a ≡ c = ground (arith, mine, e) in
          let starts_too : c.status ≡ ActionStatus.init =
            ap (λ (x : LikeNftMigrationActionNewClass). x.status) (sym eq) ∙ starts in
          absurd (ground (arith, starts_too, done))
      | inr other ↦ sound.identified class c (ground (arith, other, e)) done
    ];
  }
