-- ===== src/Clients/Random/Keys.antt =====
-- The requests of rand_client/client.cpp, as the middlebox reads them.
use kernel_bypass_group_proj.Base.{
  ℕ, zero, suc, ◌+◌, ◌*◌, ◌%◌, ◌≤◌, ◌<◌, ◌≡◌, ◌≢◌, refl, sym, ◌∙◌, ap, Bytes, List, [], ◌∷◌, ◌++◌,
  some, arith, length, length-append, lt→ltb, false, ◌==◌, get_elem?, All, codes, bytes_eq_ne,
  append-nil, append_assoc,
}
use kernel_bypass_group_proj.Base.Int.{ℤ}
use kernel_bypass_group_proj.Mem.{Mem}
use kernel_bypass_group_proj.Clients.{Session, returned}
use kernel_bypass_group_proj.Clients.Run.{IsReply, Makes, Progress, run_client-Progress}
use native.Mathlib.Nat.{mod-lt}
use kernel_bypass_group_proj.Api.Keys.{construct_keys_packet, append_keys, strip_keys}
use kernel_bypass_group_proj.Api.Keys.RoundTrip.{IsKey, strip_keys-construct_keys_packet}
use kernel_bypass_group_proj.Clients.Random.{
  rand_client_main, rand_settings, csv_key_nums, add_rows, get_list_of_keys, strcat, add_rand_keys,
  create_rand_msg,
}

-- A key that fits into a row, and is not the line that ends the list.
pub record IsRow (k : Bytes) : Type 0 where
  pub key : IsKey k
  pub row : length k < 32
  pub not_newline : k ≢ codes "\n"

-- A row that the list has at some place.
pub record IsChosen (key_list : List Bytes) (k : Bytes) : Type 0 where
  pub is_row : IsRow k
  pub place : ℕ
  pub found : get_elem? key_list place ≡ some k

get_elem?-All :
    {P : Bytes → Type 0} (xs : List Bytes) (i : ℕ)
    → All P xs
    → i < length xs
    → (x : Bytes) × (get_elem? xs i ≡ some x) × P x
get_elem?-All [] i h l = absurd (omega arith)
get_elem?-All (x ∷ xs) zero h l = (x, refl, h.0)
get_elem?-All (x ∷ xs) (suc i) h l = get_elem?-All xs i h.1 (omega arith)

strcat_fits :
    (msg text : Bytes) → length msg + length text < 512 → strcat msg text ≡ some (msg ++ text)
strcat_fits msg text h = rw (lt→ltb _ _ h) refl

length-not_empty : (xs : List Bytes) → xs ≢ [] → 0 < length xs
length-not_empty [] ne = absurd (ne refl)
length-not_empty (x ∷ xs) ne = omega arith

module _ (rand : ℕ → ℕ) (key_list : List Bytes) (rows : All IsRow key_list)
    (ne : key_list ≢ []) where
  add_rand_keys-suc :
      (n draws : ℕ) (msg key : Bytes)
      → get_elem? key_list (rand draws % length key_list) ≡ some key
      → length msg + 1 + length key < 512
      → add_rand_keys rand key_list (suc n) draws msg
        ≡ add_rand_keys rand key_list n (draws + 1) ((msg ++ codes " ") ++ key)
  unfolding add_rand_keys
  add_rand_keys-suc n draws msg key e h =
      let filled = length-not_empty key_list ne in
      let test : (length key_list == 0) ≡ false = ground arith in
      let size = length-append msg (codes " ") in
      rw
        (
          add_rand_keys,
          test,
          e,
          strcat_fits msg (codes " ") (omega arith),
          strcat_fits (msg ++ codes " ") key (omega (arith, size)),
        )
        refl

  -- Each round appends a space and a key of the list.
  add_rand_keys-append_keys :
      (n draws : ℕ) (msg : Bytes)
      → length msg + n * 32 < 512
      → (keys : List Bytes) × (add_rand_keys rand key_list n draws msg
          ≡ some (append_keys keys msg, draws + n))
        × (length keys ≡ n)
        × All (IsChosen key_list) keys
        × (length (append_keys keys msg) ≤ length msg + n * 32)
  unfolding append_keys
  add_rand_keys-append_keys zero draws msg h =
      let e : draws ≡ draws + 0 = omega arith in
      ([], unfold add_rand_keys in ap (λ k. some (msg, k)) e, refl, tt, omega arith)
  add_rand_keys-append_keys (suc n) draws msg h =
      let (key, e, is) =
        get_elem?-All key_list (rand draws % length key_list) rows
          (mod-lt _ (length-not_empty key_list ne)) in
      let size : length ((msg ++ codes " ") ++ key) ≤ length msg + 32 =
        omega
          (arith, length-append msg (codes " "), length-append (msg ++ codes " ") key, is.row) in
      let (keys, e', l, all, size') =
        add_rand_keys-append_keys n (draws + 1) ((msg ++ codes " ") ++ key)
          (omega (arith, size, h)) in
      let count : draws + 1 + n ≡ draws + suc n = omega arith in
      (
        key ∷ keys,
        add_rand_keys-suc n draws msg key e (omega (arith, is.row, h))
            ∙ e'
            ∙ ap (λ k. some (append_keys keys ((msg ++ codes " ") ++ key), k)) count,
        ap suc l,
        (record { is_row = is; place = rand draws % length key_list; found = e }, all),
        omega (arith, size, size'),
      )

  -- A message of four keys of the list, as construct_keys_packet writes it.
  pub create_rand_msg-construct_keys_packet :
      (draws : ℕ)
      → (keys : List Bytes) × (create_rand_msg rand key_list draws
          ≡ some (construct_keys_packet keys, draws + 4))
        × (length keys ≡ 4)
        × All (IsChosen key_list) keys
        × (length (construct_keys_packet keys) ≤ 132)
  unfolding create_rand_msg construct_keys_packet
  create_rand_msg-construct_keys_packet draws =
      add_rand_keys-append_keys 4 draws (codes "gets") (omega arith)

-- The rows are the words of the file, as long as they are rows and there is room for them.
add_rows-All :
    (key_list words : List Bytes)
    → All IsRow words
    → length key_list + length words ≤ 200
    → add_rows key_list words ≡ some (key_list ++ words)
unfolding add_rows
add_rows-All key_list [] h l = ap some (sym (append-nil key_list))
add_rows-All key_list (w ∷ words) h l =
    rw
      (
        add_rows,
        bytes_eq_ne w (codes "\n") h.0.not_newline,
        lt→ltb (length key_list) 200 (omega arith),
        lt→ltb (length w) 32 h.0.row,
      )
      (add_rows-All (key_list ++ w ∷ []) words h.1 (omega (arith, length-append key_list (w ∷ [])))
        ∙ ap some (append_assoc key_list (w ∷ []) words))

chosen-IsKey : (key_list keys : List Bytes) → All (IsChosen key_list) keys → All IsKey keys
chosen-IsKey key_list [] h = tt
chosen-IsKey key_list (k ∷ keys) h = (h.0.is_row.key, chosen-IsKey key_list keys h.1)

-- A message from which strip_keys, with this in its uninitialised buffer, reads four keys of the
-- list.
pub AsksFor : Bytes → List Bytes → Bytes → Type 0
AsksFor buffer key_list message =
    (keys : List Bytes) × (length keys ≡ 4)
    × All (IsChosen key_list) keys
    × (strip_keys buffer message ≡ some keys)

create_rand_msg-AsksFor :
    (buffer : Bytes) (rand : ℕ → ℕ) (key_list : List Bytes)
    → All IsRow key_list
    → key_list ≢ []
    → Makes (AsksFor buffer key_list) (rand_settings rand key_list)
unfolding AsksFor Makes
create_rand_msg-AsksFor buffer rand key_list rows ne draws =
    let (keys, e, l, all, size) =
      create_rand_msg-construct_keys_packet rand key_list rows ne draws in
    let some_keys : keys ≢ [] = λ none_there. omega (arith, l, ap length none_there) in
    (
      construct_keys_packet keys,
      draws + 4,
      e,
      (
        keys,
        l,
        all,
        strip_keys-construct_keys_packet buffer keys some_keys (chosen-IsKey key_list keys all)
            (omega (arith, l)),
      ),
      omega (arith, size),
    )

-- The client of rand_client, for a file of 1 to 200 words, each a key of fewer than 32 bytes and
-- none a line break, whatever rand gives, and where every call of recvfrom gives at least 10 bytes
-- and fewer than its buffer has: main returns, after 1000 calls of sendto and 4000 of recvfrom, and
-- every datagram sent is a memcached datagram with a message from which the strip_keys of the
-- middlebox reads four keys, each a row of the file.
pub rand_client_requests :
    (buffer : Bytes) (words : List Bytes) (rand : ℕ → ℕ) (recvfrom : ℕ → ℤ × Mem) (garbage : Mem)
    → All IsRow words
    → words ≢ []
    → length words ≤ csv_key_nums
    → ((i : ℕ) → IsReply 1024 (recvfrom i))
    → (s : Session) × (rand_client_main words rand recvfrom garbage ≡ returned s)
      × Progress (AsksFor buffer words) 1000 4000 s
unfolding rand_client_main
rand_client_requests buffer words rand recvfrom garbage rows ne few replies =
    let (s, e, p) =
      run_client-Progress (AsksFor buffer words) (rand_settings rand words) rand recvfrom
        (omega arith) (create_rand_msg-AsksFor buffer rand words rows ne) replies garbage in
    let read : get_list_of_keys words ≡ some words =
      unfold get_list_of_keys in add_rows-All [] words rows (omega (arith, few)) in
    (s, rw (rand_client_main, read) e, p)
