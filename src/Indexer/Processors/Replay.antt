-- ===== src/Indexer/Processors/Replay.antt =====
-- A replay of transfers on the abstract ledger, and which transfers a run of tasks replays.
-- (likenft-indexer/internal/logic/evmeventprocessor)
use likecoin_op.Base.{
  ℕ, ◌≡◌, refl, sym, ◌∙◌, inl, inr, Bool, true, Option, none, some, List, [], ◌∷◌, find, replace,
  Bool-cases, Text,
}
use likecoin_op.Indexer.Processors.Ledger.{Ledger, Move, moves, moved}
use likecoin_op.Indexer.Processors.Moves.{SameLedger}

abbrev pub image {ℓ κ} : {A : Type ℓ} {B : Type κ} → B → (A → B) → Option A → B
image b g none = b
image b g (some a) = g a

-- An update that keeps the test and the image of a row keeps the image of what is found.
pub find-image {ℓ κ} :
    {A : Type ℓ} {B : Type κ} (b : B) (g : A → B) (p q : A → Bool) (f : A → A) (xs : List A)
    → ((x : A) → p (f x) ≡ p x)
    → ((x : A) → g (f x) ≡ g x)
    → image b g (find p (replace q f xs)) ≡ image b g (find p xs)
find-image b g p q f [] keeps same = refl
find-image b g p q f (x ∷ xs) keeps same =
    let rest = find-image b g p q f xs keeps same in
    elim (Bool-cases (q x)) [
      | inl hit ↦ elim (Bool-cases (p x)) [
        | inl found ↦ rw hit (rw (keeps x) (rw found (same x)))
        | inr next ↦ rw hit (rw (keeps x) (rw next rest))
      ]
      | inr miss ↦ elim (Bool-cases (p x)) [
        | inl found ↦ rw miss (rw found refl)
        | inr next ↦ rw miss (rw next rest)
      ]
    ]

-- The moves of a list, the first one first.
abbrev pub replay : (Text → Text) → List Move → Ledger → Ledger
replay fold [] l = l
replay fold (m ∷ ms) l = replay fold ms (moved fold m l)

-- The turn of a task: the id of its event, whether the event was still to be processed, and whether the
-- task returned.
pub record Turn : Type 0 where
  pub id : ℕ
  pub fresh : Bool
  pub returned : Bool

-- The moves that the turns have made, in their order: an event that was processed before makes none, and
-- a turn of a fresh event that returns makes the move that its event stands for.
pub data Picked (move_at : ℕ → Option Move) : List Turn → List Move → Type 0 where
  end : Picked move_at [] []
  skip :
      {t : Turn} {ts : List Turn} {ms : List Move}
      → (t.fresh ≡ true → t.returned ≡ true → move_at t.id ≡ none)
      → Picked move_at ts ms
      → Picked move_at (t ∷ ts) ms
  take :
      {t : Turn} {ts : List Turn} {m : Move} {ms : List Move}
      → t.fresh ≡ true
      → move_at t.id ≡ some m
      → Picked move_at ts ms
      → Picked move_at (t ∷ ts) (m ∷ ms)

pub Picked-map :
    (f g : ℕ → Option Move) (ts : List Turn) (ms : List Move)
    → ((i : ℕ) → f i ≡ g i)
    → Picked f ts ms
    → Picked g ts ms
Picked-map f g [] [] h end = end
Picked-map f g [] (m ∷ ms) h p = elim p [ ]
Picked-map f g (t ∷ ts) ms h (skip k p) =
    skip (λ a b. sym (h t.id) ∙ k a b) (Picked-map f g ts ms h p)
Picked-map f g (t ∷ ts) (m ∷ ms) h (take a e p) =
    take a (sym (h t.id) ∙ e) (Picked-map f g ts ms h p)

pub moved-same :
    (fold : Text → Text) (m : Move) (l k : Ledger)
    → SameLedger fold l k
    → SameLedger fold (moved fold m l) (moved fold m k)
moved-same fold m l k h c t = elim (Bool-cases (moves fold m c t)) [
  | inl hit ↦ rw hit refl
  | inr miss ↦ rw miss (h c t)
]

pub replay-same :
    (fold : Text → Text) (ms : List Move) (l k : Ledger)
    → SameLedger fold l k
    → SameLedger fold (replay fold ms l) (replay fold ms k)
replay-same fold [] l k h = h
replay-same fold (m ∷ ms) l k h =
    replay-same fold ms (moved fold m l) (moved fold m k) (moved-same fold m l k h)
