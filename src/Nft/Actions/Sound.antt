-- ===== src/Nft/Actions/Sound.antt =====
-- The rows of the new classes and the announcements: the invariant of the actions.
-- (migration-backend/pkg/logic/likenft/do_new_class_action.go)
use likecoin_op.Base.{
  ℕ, ◌<◌, ◌≡◌, refl, sym, ap, ◌∙◌, inl, inr, Bool, true, false, ◌&&◌, Option, none, some, List, [],
  ◌∷◌, ◌==◌, if◌then◌else◌, find, replace, All, arith, Text, Bool-cases, find-holds, find-All,
  find-replace, find-replace_other, All-replace, eq_of_test,
}
use mathlib.Core.Path.{subst}
use likecoin_op.Nft.Actions.Model.{
  ActionStatus, LikeNftMigrationActionNewClass, Request, new_book_nft, transfer_ownership,
  safe_mint_with_token_id, transfer_from, submit_evm_book_migrated,
}

abbrev pub Rows : Type 0
Rows = List LikeNftMigrationActionNewClass

-- The row of a class of Cosmos, as `QueryLikeNFTMigrationActionNewClass` finds it.
abbrev pub of_class : Text → LikeNftMigrationActionNewClass → Bool
of_class class a = (a.cosmos_class_id == class) && true

abbrev pub row_of : Text → Rows → Option LikeNftMigrationActionNewClass
row_of class rows = find (of_class class) rows

abbrev pub has_id : ℕ → LikeNftMigrationActionNewClass → Bool
has_id id a = a.id == id

-- The classes of the new chain that were announced for a class of Cosmos.
abbrev pub announced : Text → List Request → List Text
announced class [] = []
announced class (submit_evm_book_migrated c e ∷ rs) =
    let rest = announced class rs in if c == class then e ∷ rest else rest
announced class (new_book_nft m ∷ rs) = announced class rs
announced class (transfer_ownership a b ∷ rs) = announced class rs
announced class (safe_mint_with_token_id a b c d e ∷ rs) = announced class rs
announced class (transfer_from a b c d ∷ rs) = announced class rs

-- The class of the new chain that a row stands for, where its action is completed.
abbrev pub deployed_as : ActionStatus → Option Text → List Text
deployed_as ActionStatus.completed (some e) = e ∷ []
deployed_as ActionStatus.completed none = []
deployed_as ActionStatus.init e = []
deployed_as ActionStatus.in_progress e = []
deployed_as ActionStatus.failed e = []
deployed_as ActionStatus.other e = []

abbrev pub deployed : Option LikeNftMigrationActionNewClass → List Text
deployed none = []
deployed (some a) = deployed_as a.status a.evm_class_id

abbrev pub is_completed : ActionStatus → Bool
is_completed ActionStatus.completed = true
is_completed ActionStatus.init = false
is_completed ActionStatus.in_progress = false
is_completed ActionStatus.failed = false
is_completed ActionStatus.other = false

pub record Sound (rows : Rows) (next : ℕ) (net : List Request) : Type 0 where
  -- no other row has the id of the row of a class
  pub own :
      (class : Text) (a : LikeNftMigrationActionNewClass)
      → row_of class rows ≡ some a
      → find (has_id a.id) rows ≡ some a
  pub below : All (λ (a : LikeNftMigrationActionNewClass). a.id < next) rows
  -- a class is announced once it is completed, and only then
  pub told : (class : Text) → announced class net ≡ deployed (row_of class rows)
  pub identified :
      (class : Text) (a : LikeNftMigrationActionNewClass)
      → row_of class rows ≡ some a
      → is_completed a.status ≡ true
      → (e : Text) × (a.evm_class_id ≡ some e)

-- The completed rows are there afterwards as they were before.
abbrev pub Stays : Rows → Rows → Type 0
Stays rows later =
    (class : Text) (a : LikeNftMigrationActionNewClass)
    → row_of class rows ≡ some a
    → is_completed a.status ≡ true
    → row_of class later ≡ some a

pub deployed_as-open :
    (s : ActionStatus) (e : Option Text) → is_completed s ≡ false → deployed_as s e ≡ []
deployed_as-open ActionStatus.completed e h = cc
deployed_as-open ActionStatus.init e h = refl
deployed_as-open ActionStatus.in_progress e h = refl
deployed_as-open ActionStatus.failed e h = refl
deployed_as-open ActionStatus.other e h = refl

class_of_test :
    (class : Text) (a : LikeNftMigrationActionNewClass)
    → of_class class a ≡ true
    → a.cosmos_class_id ≡ class
class_of_test class a h = ground arith

-- The row `a` of a class, not completed, is overwritten by `b`.
module _ (rows : Rows) (next : ℕ) (net later : List Request) (a b : LikeNftMigrationActionNewClass)
    (found : row_of a.cosmos_class_id rows ≡ some a) (open_before : is_completed a.status ≡ false)
    (same_id : b.id ≡ a.id) (same_class : b.cosmos_class_id ≡ a.cosmos_class_id)
    (sound : Sound rows next net) where
  abbrev pub written : Rows
  written = replace (has_id b.id) (λ _. b) rows

  hits : has_id b.id a ≡ true
  hits = ground arith

  own_class : of_class a.cosmos_class_id b ≡ true
  own_class = ground arith

  pub row-own : row_of a.cosmos_class_id written ≡ some b
  row-own =
      find-replace (of_class a.cosmos_class_id) (has_id b.id) rows {a = a} b found hits own_class

  -- The row of another class has another id.
  misses :
      (class : Text) (c : LikeNftMigrationActionNewClass)
      → (a.cosmos_class_id == class) ≡ false
      → row_of class rows ≡ some c
      → has_id b.id c ≡ false
  misses class c other e = elim (Bool-cases (has_id b.id c)) [
    | inr miss ↦ miss
    | inl hit ↦
        let same : c.id ≡ a.id = ground (arith, hit) in
        let mine = sound.own a.cosmos_class_id a found in
        let theirs : find (has_id a.id) rows ≡ some c =
          subst (λ i. find (has_id i) rows ≡ some c) same (sound.own class c e) in
        let eq : a ≡ c = cc (sym mine ∙ theirs) in
        let its : c.cosmos_class_id ≡ class =
          class_of_test class c (find-holds (of_class class) rows {a = c} e) in
        absurd (
          ground
            (arith, other, ap (λ (x : LikeNftMigrationActionNewClass). x.cosmos_class_id) eq, its))
  ]

  row-other :
      (class : Text)
      → (a.cosmos_class_id == class) ≡ false
      → row_of class written ≡ row_of class rows
  row-other class other =
      find-replace_other (of_class class) (has_id b.id) rows b (λ c e. misses class c other e)
        (ground (arith, other))

  pub write-Stays : Stays rows written
  write-Stays class c e done = elim (Bool-cases (a.cosmos_class_id == class)) [
    | inl y ↦
        let same : a.cosmos_class_id ≡ class = eq_of_test a.cosmos_class_id class y in
        let mine : row_of class rows ≡ some a = subst (λ k. row_of k rows ≡ some a) same found in
        let eq : a ≡ c = cc (sym mine ∙ e) in
        absurd (
          ground (
            arith,
            open_before,
            done,
            ap (λ (x : LikeNftMigrationActionNewClass). is_completed x.status) eq,
          ))
    | inr n ↦ row-other class n ∙ e
  ]

  own-written :
      (class : Text) (c : LikeNftMigrationActionNewClass)
      → row_of class written ≡ some c
      → find (has_id c.id) written ≡ some c
  own-written class c e = elim (Bool-cases (a.cosmos_class_id == class)) [
    | inl y ↦
        let same : a.cosmos_class_id ≡ class = eq_of_test a.cosmos_class_id class y in
        let mine : row_of class written ≡ some b =
          subst (λ k. row_of k written ≡ some b) same row-own in
        let eq : b ≡ c = cc (sym mine ∙ e) in
        subst (λ (x : LikeNftMigrationActionNewClass). find (has_id x.id) written ≡ some x) eq
          (find-replace (has_id b.id) (has_id b.id) rows {a = a} b
            (subst (λ i. find (has_id i) rows ≡ some a) (sym same_id)
              (sound.own a.cosmos_class_id a found))
            hits (ground arith))
    | inr n ↦
        let before : row_of class rows ≡ some c = sym (row-other class n) ∙ e in
        let miss = misses class c n before in
        find-replace_other (has_id c.id) (has_id b.id) rows b
          (λ x h.
            let eq : x ≡ c = cc (sym h ∙ sound.own class c before) in ap (has_id b.id) eq ∙ miss)
          (ground (arith, miss))
        ∙ sound.own class c before
  ]

  -- What the new row says of itself: its announcement, and its class if it is completed.
  pub write-Sound :
      (announced a.cosmos_class_id net ≡ []
        → announced a.cosmos_class_id later ≡ deployed_as b.status b.evm_class_id)
      → ((class : Text)
          → (a.cosmos_class_id == class) ≡ false
          → announced class later ≡ announced class net)
      → (is_completed b.status ≡ true → (e : Text) × (b.evm_class_id ≡ some e))
      → Sound written next later
  write-Sound told_own told_other known = record {
    own = own-written;
    below =
        All-replace (λ (x : LikeNftMigrationActionNewClass). x.id < next) (has_id b.id) b rows
          sound.below
          (subst (λ i. i < next) (sym same_id)
            (find-All (λ (x : LikeNftMigrationActionNewClass). x.id < next)
              (of_class a.cosmos_class_id) rows {a = a} sound.below found));
    told = λ class. elim (Bool-cases (a.cosmos_class_id == class)) [
      | inl y ↦
          let same : a.cosmos_class_id ≡ class = eq_of_test a.cosmos_class_id class y in
          subst (λ k. announced k later ≡ deployed (row_of k written)) same
            (told_own (
                sound.told a.cosmos_class_id
                ∙ ap deployed found
                ∙ deployed_as-open a.status a.evm_class_id open_before)
              ∙ sym (ap deployed row-own))
      | inr n ↦ told_other class n ∙ sound.told class ∙ sym (ap deployed (row-other class n))
    ];
    identified = λ class c e done. elim (Bool-cases (a.cosmos_class_id == class)) [
      | inl y ↦
          let same : a.cosmos_class_id ≡ class = eq_of_test a.cosmos_class_id class y in
          let mine : row_of class written ≡ some b =
            subst (λ k. row_of k written ≡ some b) same row-own in
          let eq : b ≡ c = cc (sym mine ∙ e) in
          subst (λ (x : LikeNftMigrationActionNewClass). (e : Text) × (x.evm_class_id ≡ some e)) eq
            (known (ap (λ (x : LikeNftMigrationActionNewClass). is_completed x.status) eq ∙ done))
      | inr n ↦ sound.identified class c (sym (row-other class n) ∙ e) done
    ];
  }
