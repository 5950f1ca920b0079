-- ===== src/Claims/History/Laws.antt =====
-- The maps behind a claim history of crates/aicortex-claims/src/history.rs.
use aicortex.Prelude.{
  ℕ, ◌≤◌, ◌≡◌, refl, ◌&&◌, ◌||◌, ◌⊎◌, inl, inr, none, some, List, [], ◌∷◌, arith, ltb, ◌==◌,
  if◌then◌else◌, In, Bool-cases,
}
use Prim.Native.String.{String}
use text.Mathlib.Text.{◌==◌ as str_eq}
use text.Mathlib.TextEquality.{eq_iff}
use aicortex.Claims.History.{ClaimRecord, TxStamp, UsedTx, get, insert, tx_used, use_tx, max_seq}

-- A map with one more record holds it and what it held.
pub get-insert :
    (r : ClaimRecord) (m : List ClaimRecord) (id : ℕ)
    → get m r.claim.id ≡ none
    → get (insert r m) id ≡ (if r.claim.id == id then some r else get m id)
unfolding get insert
get-insert r [] id h = refl
get-insert r (s ∷ ss) id h = ground (arith, get-insert r ss id)

pub In-insert : (r s : ClaimRecord) (m : List ClaimRecord) → In s (insert r m) → (s ≡ r) ⊎ In s m
unfolding insert
In-insert r s [] (inl e) = inl e
In-insert r s [] (inr i) = inr i
In-insert r s (t ∷ m) i = elim (Bool-cases (ltb r.claim.id t.claim.id)) [
  | inl e ↦ here (rw e at i)
  | inr e ↦ there (In-insert r s m) (rw e at i)
]
  where
    here : In s (r ∷ t ∷ m) → (s ≡ r) ⊎ In s (t ∷ m)
    here (inl e) = inl e
    here (inr i) = inr i

    there : (In s (insert r m) → (s ≡ r) ⊎ In s m) → In s (t ∷ insert r m) → (s ≡ r) ⊎ In s (t ∷ m)
    there ih (inl e) = inr (inl e)
    there ih (inr i) = elim (ih i) [ inl e ↦ inl e | inr j ↦ inr (inr j) ]

-- What the scopes have used after one more use.
pub tx_used-use_tx :
    (used : UsedTx) (scope other : String) (seq n : ℕ)
    → tx_used (use_tx used scope seq) other n
      ≡ ((str_eq scope other && seq == n) || tx_used used other n)
unfolding tx_used use_tx
tx_used-use_tx [] scope other seq n = ground arith
tx_used-use_tx ((s, seqs) ∷ rest) scope other seq n = ground (
  arith,
  eq_iff s scope,
  eq_iff s other,
  eq_iff scope other,
  tx_used-use_tx rest scope other seq n,
)

pub max_seq-In :
    {A : Type 0} (tx : A → TxStamp) (xs : List A) (x : A) → In x xs → (tx x).seq ≤ max_seq tx xs
max_seq-In tx [] x i = elim i [ ]
max_seq-In tx (y ∷ ys) x (inl e) = rw e (omega arith)
max_seq-In tx (y ∷ ys) x (inr i) = omega (arith, max_seq-In tx ys x i)
