-- ===== src/Superseded/DynamicArray/Grow.antt =====
-- The array of deprecated/dynamic_array.c against the list that it stands for.
use kernel_bypass_group_proj.Base.{
  ==_refl, ℕ, zero, suc, ◌+◌, ◌*◌, ◌%◌, ◌^◌, ◌≤◌, ◌<◌, ◌≡◌, refl, sym, ◌∙◌, ap, List, [], ◌∷◌, ◌++◌,
  some, true, arith, length, set, Bool-cases, inl, inr, ◌==◌, ltb, lt→ltb, take, append-nil,
  append_assoc,
}
use kernel_bypass_group_proj.Superseded.DynamicArray.{
  Array, Memory, fill, bytes_of, realloc, init_array, grow, insert_array, insert_all, elements,
}
use native.Mathlib.Nat.{mul-div_cancel, mul-le-mul_left, mul-le-mul_right, mod-eq_of_lt}

module _ {A : Type 0} where
  length-fill : (g : A) (n : ℕ) (old : List A) → length (fill g n old) ≡ n
  length-fill g zero old = refl
  length-fill g (suc n) [] = omega (arith, length-fill g n [])
  length-fill g (suc n) (x ∷ old) = omega (arith, length-fill g n old)

  take-fill :
      (g : A) (n k : ℕ) (old : List A) → k ≤ n → k ≤ length old → take k (fill g n old) ≡ take k old
  take-fill g n zero old h l = refl
  take-fill g zero (suc k) old h l = absurd (omega arith)
  take-fill g (suc n) (suc k) [] h l = absurd (omega arith)
  take-fill g (suc n) (suc k) (x ∷ old) h l =
      ap (λ r. x ∷ r) (take-fill g n k old (omega arith) (omega arith))

  length-set : (xs : List A) (i : ℕ) (x : A) → length (set xs i x) ≡ length xs
  length-set [] i x = refl
  length-set (y ∷ xs) zero x = refl
  length-set (y ∷ xs) (suc i) x = ap suc (length-set xs i x)

  take-set :
      (xs : List A) (i : ℕ) (x : A)
      → i < length xs
      → take (suc i) (set xs i x) ≡ take i xs ++ x ∷ []
  take-set [] i x h = absurd (omega arith)
  take-set (y ∷ xs) zero x h = refl
  take-set (y ∷ xs) (suc i) x h = ap (λ r. y ∷ r) (take-set xs i x (omega arith))

-- The memory has room for every element that is counted in `size`, and at most about half of it is
-- not used; the array began with `n` elements.
pub record IsArray {A : Type 0} (n : ℕ) (a : Array A) : Type 0 where
  pub fits : length a.array ≡ a.size
  pub bounded : a.used ≤ a.size
  pub positive : 0 < a.size
  pub tight : a.size ≤ a.used * 2 + n

-- Every request for memory of at most `limit` elements is met, and its size in bytes is a size_t.
pub record IsPlentiful {A : Type 0} (mem : Memory A) (limit : ℕ) : Type 0 where
  pub sized : 0 < mem.element_size
  pub representable : limit * mem.element_size < 2 ^ 64
  pub met : (bytes : ℕ) → bytes ≤ limit * mem.element_size → mem.has_room bytes ≡ true

module _ {A : Type 0} (mem : Memory A) (limit : ℕ) (plenty : IsPlentiful mem limit) where
  bytes_of-le :
      (n : ℕ)
      → n ≤ limit
      → (bytes_of mem n ≡ n * mem.element_size) × (bytes_of mem n ≤ limit * mem.element_size)
  bytes_of-le n h =
      let le = mul-le-mul_right mem.element_size h in
      let e : bytes_of mem n ≡ n * mem.element_size =
        mod-eq_of_lt (omega (arith, le, plenty.representable)) in
      (e, omega (arith, e, le))

  realloc_lem :
      (old : List A) (n : ℕ) → n ≤ limit → realloc mem old (bytes_of mem n) ≡ fill mem.garbage n old
  realloc_lem old n h =
      rw (plenty.met _ (bytes_of-le n h).1, (bytes_of-le n h).0, mul-div_cancel n plenty.sized) refl

  pub init_array-IsArray : (n : ℕ) → 0 < n → n ≤ limit → IsArray n (init_array mem n)
  init_array-IsArray n h l = record {
    fits = ap length (realloc_lem [] n l) ∙ length-fill mem.garbage n [];
    bounded = omega arith;
    positive = h;
    tight = omega arith;
  }

  -- A full array of less than half of the limit doubles; nothing that is used is lost.
  grow_full :
      (n : ℕ) (a : Array A)
      → IsArray n a
      → a.used ≡ a.size
      → a.size * 2 ≤ limit
      → grow mem a
        ≡ record { array = fill mem.garbage (a.size * 2) a.array; used = a.used; size = a.size * 2 }
  grow_full n a is e h =
      let le = mul-le-mul_left (a.size * 2) plenty.sized in
      let wrap : a.size * 2 % 2 ^ 64 ≡ a.size * 2 = mod-eq_of_lt (
        omega (
          arith,
          le,
          (bytes_of-le (a.size * 2) h).0,
          (bytes_of-le (a.size * 2) h).1,
          plenty.representable,
        )) in
      rw (e, ==_refl a.size, wrap, realloc_lem a.array (a.size * 2) h) refl

  -- A write behind the used elements of an array that is not full.
  write_lem :
      (n : ℕ) (a : Array A) (x : A)
      → IsArray n a
      → a.used < a.size
      → (ltb a.used (length a.array) ≡ true)
        × IsArray n (record a { array = set a.array a.used x; used = suc a.used })
        × (take (suc a.used) (set a.array a.used x) ≡ elements a ++ x ∷ [])
  write_lem n a x is h =
      let room : a.used < length a.array = omega (arith, is.fits, h) in
      (
        lt→ltb _ _ room,
        record {
          fits = length-set a.array a.used x ∙ is.fits;
          bounded = omega (arith, h);
          positive = is.positive;
          tight = omega (arith, is.tight);
        },
        take-set a.array a.used x room,
      )

  -- After growing there is room for one more element.
  Grown : ℕ → Array A → Type 0
  Grown n a =
      IsArray n (grow mem a)
      × ((grow mem a).used ≡ a.used)
      × (a.used < (grow mem a).size)
      × (elements (grow mem a) ≡ elements a)

  grow-Grown : (n : ℕ) (a : Array A) → IsArray n a → a.used * 2 ≤ limit → Grown n a
  unfolding Grown
  grow-Grown n a is h = elim (Bool-cases (a.used == a.size)) [
    | inl t ↦
        let e : a.used ≡ a.size = ground arith in
        rw (grow_full n a is e (omega (arith, e, h))) (
          record {
            fits = length-fill mem.garbage (a.size * 2) a.array;
            bounded = omega (arith, is.bounded);
            positive = omega (arith, is.positive);
            tight = omega (arith, e);
          },
          refl,
          omega (arith, e, is.positive),
          take-fill mem.garbage (a.size * 2) a.used a.array (omega (arith, e))
              (omega (arith, e, is.fits)),
        )
    | inr f ↦ rw f (is, refl, ground (arith, is.bounded), refl)
  ]

  -- Every element counted in `a.used` is kept, the new one comes last.
  pub insert_array-elements :
      (n : ℕ) (a : Array A) (x : A)
      → IsArray n a
      → a.used * 2 ≤ limit
      → (b : Array A) × (insert_array mem a x ≡ some b)
        × IsArray n b
        × (b.used ≡ suc a.used)
        × (elements b ≡ elements a ++ x ∷ [])
  unfolding Grown insert_array
  insert_array-elements n a x is h =
      let g = grow-Grown n a is h in
      let w = write_lem n (grow mem a) x g.0 (omega (arith, g.1, g.2)) in
      (_, rw (w.0) refl, w.1, omega (arith, g.1), w.2 ∙ ap (λ t. t ++ x ∷ []) g.3)

  insert_all-elements :
      (n : ℕ) (a : Array A) (xs : List A)
      → IsArray n a
      → (a.used + length xs) * 2 ≤ limit
      → (b : Array A) × (insert_all mem a xs ≡ some b)
        × IsArray n b
        × (b.used ≡ a.used + length xs)
        × (elements b ≡ elements a ++ xs)
  insert_all-elements n a [] is h = (a, refl, is, omega arith, sym (append-nil (elements a)))
  insert_all-elements n a (x ∷ xs) is h =
      let (b, e, is', u, l) = insert_array-elements n a x is (omega (arith, h)) in
      let (c, e', is'', u', l') = insert_all-elements n b xs is' (omega (arith, h, u)) in
      (
        c,
        rw e e',
        is'',
        omega (arith, u, u'),
        l' ∙ ap (λ t. t ++ xs) l ∙ append_assoc (elements a) (x ∷ []) xs,
      )

  -- Where every request for memory of at most `limit` elements is met and its size fits a size_t: an
  -- array that begins with n elements, 0 < n, and takes any elements one after the other, no more
  -- than half of `limit`, stands for the list of these elements, in order; no write leaves its
  -- memory, which has room for exactly `size` elements, and `size` is at most twice the number of
  -- elements plus n.
  pub insert_all-init_array :
      (n : ℕ) (xs : List A)
      → 0 < n
      → n ≤ limit
      → length xs * 2 ≤ limit
      → (a : Array A) × (insert_all mem (init_array mem n) xs ≡ some a)
        × (elements a ≡ xs)
        × (a.used ≡ length xs)
        × (length a.array ≡ a.size)
        × (a.used ≤ a.size)
        × (a.size ≤ length xs * 2 + n)
  insert_all-init_array n xs h l m =
      let (b, e, is, u, el) =
        insert_all-elements n (init_array mem n) xs (init_array-IsArray n h l) (omega arith) in
      (b, e, el, omega (arith, u), is.fits, is.bounded, omega (arith, is.tight, u))
