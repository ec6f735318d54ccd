-- ===== src/Superseded/DynamicArray.antt =====
-- deprecated/dynamic_array.c: an array that grows. The header with `struct Array` and `struct
-- client_info` is not in the repository any more: the type of the elements and its size in bytes are
-- parameters, and the fields are those that the functions use. malloc and realloc are the parameter
-- `has_room` (a request for so many bytes is met), and new memory holds `garbage`.
pub mod Grow
use kernel_bypass_group_proj.Base.{
  ℕ, zero, suc, ◌+◌, ◌*◌, ◌/◌, ◌%◌, ◌^◌, Bool, List, [], ◌∷◌, Option, none, some, ◌==◌, ltb,
  if◌then◌else◌, length, set, take,
}
use kernel_bypass_group_proj.Base.Results.{◌>>=◌}

-- `array` lists the elements that the memory has room for; NULL has room for none.
pub record Array (A : Type 0) : Type 0 where
  pub array : List A
  pub used : ℕ
  pub size : ℕ

-- the memory behind the kept elements
abbrev pub fill : {A : Type 0} → A → ℕ → List A → List A
fill garbage zero old = []
fill garbage (suc n) [] = garbage ∷ fill garbage n []
fill garbage (suc n) (x ∷ old) = x ∷ fill garbage n old

pub record Memory (A : Type 0) : Type 0 where
  -- sizeof, in bytes
  pub element_size : ℕ
  pub has_room : ℕ → Bool
  pub garbage : A

module _ {A : Type 0} (mem : Memory A) where
  -- `size * sizeof(struct client_info)` in a size_t
  abbrev pub bytes_of : ℕ → ℕ
  bytes_of size = size * mem.element_size % 2 ^ 64

  -- `realloc` of `old`, and `malloc` where there is none
  abbrev pub realloc : List A → ℕ → List A
  realloc old bytes =
      if mem.has_room bytes then fill mem.garbage (bytes / mem.element_size) old else []

  abbrev pub init_array : ℕ → Array A
  init_array initial_size = record {
    array = realloc [] (bytes_of initial_size);
    used = 0;
    size = initial_size;
  }

  -- the branch of a full array
  abbrev pub grow : Array A → Array A
  grow a =
      if a.used == a.size
      then record a {
        array = realloc a.array (bytes_of (a.size * 2 % 2 ^ 64));
        size = a.size * 2 % 2 ^ 64;
      }
      else a

  -- `none` is a write past the memory.
  unfoldable pub insert_array : Array A → A → Option (Array A)
  insert_array a element =
      let b = grow a in
      if ltb b.used (length b.array)
      then some (record b { array = set b.array b.used element; used = suc b.used })
      else none

  -- a call for each element
  abbrev pub insert_all : Array A → List A → Option (Array A)
  insert_all a [] = some a
  insert_all a (x ∷ xs) = insert_array a x >>= (λ b. insert_all b xs)

abbrev pub free_array : {A : Type 0} → Array A → Array A
free_array a = record { array = []; used = 0; size = 0 }

-- What an array stands for: its used elements in order.
abbrev pub elements : {A : Type 0} → Array A → List A
elements a = take a.used a.array
