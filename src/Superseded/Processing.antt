-- ===== src/Superseded/Processing.antt =====
-- deprecated/processing.c: the table from a request id and a key to the clients that wait for it.
-- deprecated/map.c is another project's library: its operations are the record HashMap. It keeps a
-- key as a pointer, and every key that it is given is the array `normalized_key`, so its answers
-- depend on the map and on what the array holds. MAX_KEY_LENGTH stands in a header that is not in
-- the repository any more: it is an argument.
pub mod Lookup
use kernel_bypass_group_proj.Base.{
  ℕ, suc, ◌+◌, ◌≡◌, Bytes, List, [], ◌∷◌, ◌++◌, Option, none, some, ◌==◌, ltb, if◌then◌else◌,
  length,
}
use kernel_bypass_group_proj.Base.Results.{◌>>=◌}
use kernel_bypass_group_proj.Api.Keys.{drop}
use kernel_bypass_group_proj.Api.Signature.{signature}
use kernel_bypass_group_proj.Superseded.DynamicArray.{
  Array, Memory, init_array, insert_array, free_array,
}

pub record HashMap : Type 1 where
  pub Map : Type 0
  pub create : Map
  -- the map, what the key array holds, and the value
  pub get : Map → Bytes → Option ℕ
  pub set : Map → Bytes → ℕ → Map
  pub remove : Map → Bytes → Map

-- hashmap_get finds what hashmap_set stored last, as long as the key is not changed.
pub record MapLaws (h : HashMap) : Type 0 where
  pub get-set : (m : h.Map) (key : Bytes) (v : ℕ) → h.get (h.set m key v) key ≡ some v

-- The static variables, of which NULL is `none`, the `struct Array` at each address, and the
-- addresses that malloc will return for them.
pub record Registry (Map A : Type 0) : Type 0 where
  pub client_info_map : Option Map
  pub counter_map : Option Map
  pub normalized_key : Bytes
  pub tables : ℕ → Array A
  pub pool : List ℕ

-- What `normalize_key` leaves in the array. Its memset has the value and the length swapped and
-- writes nothing; the strcpy writes the key and a NUL.
abbrev pub normalize : Bytes → Bytes → Bytes
normalize old key = key ++ 0 ∷ drop (suc (length key)) old

module _ {A : Type 0} (h : HashMap) (mem : Memory A) (max_key_length : ℕ) where
  abbrev pub set_table : Registry h.Map A → ℕ → Array A → Registry h.Map A
  set_table s p a = record s { tables = λ q. if q == p then a else s.tables q }

  -- The sprintf into an array of MAX_KEY_LENGTH bytes, and normalize_key.
  unfoldable pub normalize_key : Registry h.Map A → Bytes → ℕ → Option (Registry h.Map A)
  normalize_key s key request_id =
      let text = signature request_id key in
      if ltb (length text) max_key_length
      then some (record s { normalized_key = normalize s.normalized_key text })
      else none

  -- The struct Array for the key that stands in normalized_key.
  unfoldable pub insert_client : Registry h.Map A → A → Option (Registry h.Map A)
  insert_client s client_data = s.client_info_map >>= (λ map. elim (h.get map s.normalized_key) [
    | some table_ptr ↦
        insert_array mem (s.tables table_ptr) client_data >>= (λ a. some (set_table s table_ptr a))
    | none ↦ elim s.pool [
      | [] ↦ none
      | table_ptr ∷ pool ↦ insert_array mem (init_array mem 1) client_data >>= (λ a.
          some (record (set_table s table_ptr a) {
            client_info_map = some (h.set map s.normalized_key table_ptr);
            pool = pool;
          }))
    ]
  ])

  unfoldable pub insert_client_info_to_map :
      Registry h.Map A → Bytes → ℕ → A → Option (Registry h.Map A)
  unfolding normalize_key insert_client
  insert_client_info_to_map s key request_id client_data =
      normalize_key s key request_id >>= (λ s. insert_client s client_data)

  -- `uninit` is what `result` holds when the key is not found.
  unfoldable pub get_from_map : Registry h.Map A → Bytes → ℕ → ℕ → Option (ℕ × Registry h.Map A)
  unfolding normalize_key
  get_from_map s key request_id uninit = normalize_key s key request_id >>= (λ s.
      s.client_info_map
      >>= (λ map. some (elim (h.get map s.normalized_key) [ none ↦ uninit | some p ↦ p ], s)))

  -- freeArray on what is found, and the entry removed.
  unfoldable pub remove_key_from_map : Registry h.Map A → Bytes → ℕ → ℕ → Option (Registry h.Map A)
  unfolding normalize_key get_from_map
  remove_key_from_map s key request_id uninit = normalize_key s key request_id >>= (λ s.
      get_from_map s key request_id uninit >>= (λ r. r.1.client_info_map >>= (λ map.
        some (record (set_table r.1 r.0 (free_array (r.1.tables r.0))) {
          client_info_map = some (h.remove map r.1.normalized_key);
        }))))

  -- `if (!map) map = hashmap_create();`
  abbrev pub created : Option h.Map → h.Map
  created none = h.create
  created (some m) = m

  abbrev pub initialize_map : Registry h.Map A → Registry h.Map A
  initialize_map s = record s {
    client_info_map = some (created s.client_info_map);
    counter_map = some (created s.counter_map);
  }
