-- ===== src/SparseMf/Minibatch/Keys.antt =====
-- The keys of the maps that `minibatch_grad` of src/SparseMFModel.cpp fills.
use cirrus.Prelude.{
  ℕ, zero, suc, ◌<◌, ◌≡◌, refl, true, false, none, List, [], ◌∷◌, ◌++◌, ap, length, get_or, set,
  All, arith, ◌==◌, if◌then◌else◌, Bool-cases, inl, inr, number_key,
}
use cirrus.Prelude.Table.{lookup, insert}
use cirrus.Gradient.MfSparse.RoundTrip.{Distinct}

abbrev pub keys : {V : Type 0} → List (ℕ × V) → List ℕ
keys [] = []
keys ((k, v) ∷ t) = k ∷ keys t

unfoldable pub add_key : ℕ → List ℕ → List ℕ
add_key k [] = k ∷ []
add_key k (j ∷ ks) = if j == k then k ∷ ks else j ∷ add_key k ks

pub keys-insert :
    {V : Type 0} (k : ℕ) (v : V) (t : List (ℕ × V)) → keys (insert k v t) ≡ add_key k (keys t)
unfolding insert add_key
keys-insert k v [] = refl
keys-insert k v ((j, w) ∷ t) = ground (arith, keys-insert k v t)

pub add_key_idem : (k : ℕ) (ks : List ℕ) → add_key k (add_key k ks) ≡ add_key k ks
unfolding add_key
add_key_idem k [] = ground arith
add_key_idem k (j ∷ ks) = ground (arith, add_key_idem k ks)

-- A key above all others goes to the end.
pub add_key-above : (k : ℕ) (ks : List ℕ) → All (λ j. j < k) ks → add_key k ks ≡ ks ++ (k ∷ [])
unfolding add_key
add_key-above k [] h = refl
add_key-above k (j ∷ ks) (h, hs) = ground (arith, add_key-above k ks hs)

pub length-keys : {V : Type 0} (t : List (ℕ × V)) → length (keys t) ≡ length t
length-keys [] = refl
length-keys ((k, v) ∷ t) = ap suc (length-keys t)

pub insert-All :
    {V : Type 0} (P : ℕ × V → Type 0) (k : ℕ) (v : V) (t : List (ℕ × V))
    → P (k, v)
    → All P t
    → All P (insert k v t)
unfolding insert
insert-All P k v [] p ps = (p, tt)
insert-All P k v (entry ∷ t) p (q, ps) = elim (Bool-cases (entry.0 == k)) [
  | inl same ↦ rw same (p, ps)
  | inr other ↦ rw other (q, insert-All P k v t p ps)
]

pub get_or-All {ℓ κ} :
    {A : Type ℓ} (P : A → Type κ) (xs : List A) (i : ℕ) (d : A)
    → i < length xs
    → All P xs
    → P (get_or xs i d)
get_or-All P [] i d h ps = absurd (omega arith)
get_or-All P (x ∷ xs) zero d h (p, ps) = p
get_or-All P (x ∷ xs) (suc i) d h (p, ps) = get_or-All P xs i d (omega arith) ps

pub set-All {ℓ κ} :
    {A : Type ℓ} (P : A → Type κ) (xs : List A) (i : ℕ) (x : A)
    → P x
    → All P xs
    → All P (set xs i x)
set-All P [] i x p ps = tt
set-All P (y ∷ xs) zero x p (q, ps) = (p, ps)
set-All P (y ∷ xs) (suc i) x p (q, ps) = (q, set-All P xs i x p ps)

lookup-append :
    {V : Type 0} (k : ℕ) (t u : List (ℕ × V))
    → lookup k (t ++ u) ≡ none
    → (lookup k t ≡ none) × (lookup k u ≡ none)
unfolding lookup
lookup-append k [] u h = (refl, h)
lookup-append k ((j, w) ∷ t) u h = ground (arith, lookup-append k t u)

append-lookup :
    {V : Type 0} (k : ℕ) (t u : List (ℕ × V))
    → lookup k t ≡ none
    → lookup k u ≡ none
    → lookup k (t ++ u) ≡ none
unfolding lookup
append-lookup k [] u h h' = h'
append-lookup k ((j, w) ∷ t) u h h' = ground (arith, append-lookup k t u)

-- Only the keys of what stands before matter.
Distinct-before :
    {F : Type 0} (m m' t : List (ℕ × F))
    → ((k : ℕ) → lookup k m ≡ none → lookup k m' ≡ none)
    → Distinct m t
    → Distinct m' t
Distinct-before m m' [] h d = tt
Distinct-before m m' ((k, v) ∷ t) h (d, ds) = (
  h k d,
  Distinct-before (m ++ ((k, v) ∷ [])) (m' ++ ((k, v) ∷ [])) t
      (λ j out.
        let (here, there) = lookup-append j m ((k, v) ∷ []) out in
        append-lookup j m' ((k, v) ∷ []) (h j here) there)
      ds,
)

same_key :
    {F : Type 0} (j k : ℕ) (v w : F) (m : List (ℕ × F)) (i : ℕ)
    → (j == k) ≡ true
    → lookup i (m ++ ((j, w) ∷ [])) ≡ none
    → lookup i (m ++ ((k, v) ∷ [])) ≡ none
unfolding lookup
same_key j k v w m i e out =
    let (here, there) = lookup-append i m ((j, w) ∷ []) out in
    append-lookup i m ((k, v) ∷ []) here (ground arith)

other_key :
    {F : Type 0} (j k : ℕ) (w : F) (m : List (ℕ × F))
    → (j == k) ≡ false
    → lookup k m ≡ none
    → lookup k (m ++ ((j, w) ∷ [])) ≡ none
unfolding lookup
other_key j k w m e out = append-lookup k m ((j, w) ∷ []) out (ground arith)

pub insert-Distinct :
    {F : Type 0} (k : ℕ) (v : F) (m t : List (ℕ × F))
    → lookup k m ≡ none
    → Distinct m t
    → Distinct m (insert k v t)
unfolding insert
insert-Distinct k v m [] h d = (h, tt)
insert-Distinct k v m ((j, w) ∷ t) h (d, ds) = elim (Bool-cases (j == k)) [
  | inl same ↦ rw same (
    h,
    Distinct-before (m ++ ((j, w) ∷ [])) (m ++ ((k, v) ∷ [])) t
        (λ i out. same_key j k v w m i same out) ds,
  )
  | inr other ↦
      rw other (d, insert-Distinct k v (m ++ ((j, w) ∷ [])) t (other_key j k w m other h) ds)
]
