-- ===== src/Api/Group/Pigeons.antt =====
-- How many distinct byte values and distinct keys there can be: the counting behind the bound on
-- the group of insert_ukey_group.
use kernel_bypass_group_proj.Base.{
  ℕ, zero, suc, ◌+◌, ◌*◌, ◌≤◌, ◌<◌, ◌≡◌, ◌≢◌, refl, Bytes, List, [], ◌∷◌, Bool, false, ◌||◌, arith,
  ◌==◌, bytes_eq, if◌then◌else◌, length, All,
}
use kernel_bypass_group_proj.Api.Group.{has_key}
use kernel_bypass_group_proj.Api.Keys.Size.{packed}

-- no key twice
abbrev pub Distinct : List Bytes → Type 0
Distinct [] = Unit
Distinct (k ∷ ks) = (has_key k ks ≡ false) × Distinct ks

abbrev has : ℕ → List ℕ → Bool
has v [] = false
has v (x ∷ xs) = (v == x) || has v xs

abbrev DistinctBytes : List ℕ → Type 0
DistinctBytes [] = Unit
DistinctBytes (x ∷ xs) = (has x xs ≡ false) × DistinctBytes xs

remove : ℕ → List ℕ → List ℕ
remove v [] = []
remove v (x ∷ xs) = if v == x then remove v xs else x ∷ remove v xs

has-remove : (v x : ℕ) (xs : List ℕ) → has x xs ≡ false → has x (remove v xs) ≡ false
unfolding remove
has-remove v x [] h = refl
has-remove v x (y ∷ ys) h = ground (arith, has-remove v x ys)

DistinctBytes-remove : (v : ℕ) (xs : List ℕ) → DistinctBytes xs → DistinctBytes (remove v xs)
unfolding remove
DistinctBytes-remove v [] h = tt
DistinctBytes-remove v (x ∷ xs) h =
    ground (arith, has-remove v x xs h.0, DistinctBytes-remove v xs h.1)

remove-absent : (v : ℕ) (xs : List ℕ) → has v xs ≡ false → length (remove v xs) ≡ length xs
unfolding remove
remove-absent v [] h = refl
remove-absent v (x ∷ xs) h = ground (arith, remove-absent v xs)

length-remove : (v : ℕ) (xs : List ℕ) → DistinctBytes xs → length xs ≤ suc (length (remove v xs))
unfolding remove
length-remove v [] h = omega arith
length-remove v (x ∷ xs) h = ground (arith, length-remove v xs h.1, remove-absent x xs h.0)

All-remove : (b : ℕ) (xs : List ℕ) → All (λ x. x < suc b) xs → All (λ x. x < b) (remove b xs)
unfolding remove
All-remove b [] h = tt
All-remove b (x ∷ xs) h = ground (arith, All-remove b xs h.1)

-- There are at most `b` distinct numbers below `b`.
pigeonhole : (b : ℕ) (xs : List ℕ) → All (λ x. x < b) xs → DistinctBytes xs → length xs ≤ b
pigeonhole zero [] h d = omega arith
pigeonhole zero (x ∷ xs) h d = absurd (omega arith)
pigeonhole (suc b) xs h d = omega (
  arith,
  length-remove b xs d,
  pigeonhole b (remove b xs) (All-remove b xs h) (DistinctBytes-remove b xs d),
)

-- the keys of one byte
ones : List Bytes → List ℕ
ones [] = []
ones ([] ∷ ks) = ones ks
ones ((c ∷ []) ∷ ks) = c ∷ ones ks
ones ((c ∷ c' ∷ k) ∷ ks) = ones ks

has-ones : (c : ℕ) (ks : List Bytes) → has_key (c ∷ []) ks ≡ false → has c (ones ks) ≡ false
unfolding ones has_key bytes_eq
has-ones c [] h = refl
has-ones c ([] ∷ ks) h = has-ones c ks h
has-ones c ((x ∷ []) ∷ ks) h = ground (arith, has-ones c ks)
has-ones c ((x ∷ y ∷ k) ∷ ks) h = ground (arith, has-ones c ks)

DistinctBytes-ones : (ks : List Bytes) → Distinct ks → DistinctBytes (ones ks)
unfolding ones
DistinctBytes-ones [] d = tt
DistinctBytes-ones ([] ∷ ks) d = DistinctBytes-ones ks d.1
DistinctBytes-ones ((c ∷ []) ∷ ks) d = (has-ones c ks d.0, DistinctBytes-ones ks d.1)
DistinctBytes-ones ((c ∷ c' ∷ k) ∷ ks) d = DistinctBytes-ones ks d.1

All-ones : (ks : List Bytes) → All (All (λ c. c < 256)) ks → All (λ c. c < 256) (ones ks)
unfolding ones
All-ones [] h = tt
All-ones ([] ∷ ks) h = All-ones ks h.1
All-ones ((c ∷ []) ∷ ks) h = (h.0.0, All-ones ks h.1)
All-ones ((c ∷ c' ∷ k) ∷ ks) h = All-ones ks h.1

-- A key takes three bytes with its separator, but for those of one byte.
packed-ones :
    (ks : List Bytes) → All (λ k. k ≢ []) ks → 3 * length ks ≤ packed ks + length (ones ks)
unfolding ones
packed-ones [] h = omega arith
packed-ones ([] ∷ ks) h = absurd (h.0 refl)
packed-ones ((c ∷ []) ∷ ks) h = omega (arith, packed-ones ks h.1)
packed-ones ((c ∷ c' ∷ k) ∷ ks) h = omega (arith, packed-ones ks h.1)

-- Distinct keys that are not empty are few for the room that they take.
pub length-le-packed :
    (ks : List Bytes)
    → Distinct ks
    → All (λ k. k ≢ []) ks
    → All (All (λ c. c < 256)) ks
    → 3 * length ks ≤ packed ks + 256
length-le-packed ks d ne bytes = omega (
  arith,
  packed-ones ks ne,
  pigeonhole 256 (ones ks) (All-ones ks bytes) (DistinctBytes-ones ks d),
)
