-- ===== src/Clients/Random.antt =====
-- rand_client/client.cpp: a client that asks for four keys of a file, taken at random. Its
-- init_send_app_payload and its loops are those of client/client.cpp with the settings below.
pub mod Keys
use kernel_bypass_group_proj.Base.{
  ℕ, zero, suc, ◌+◌, ◌%◌, Bytes, List, [], ◌∷◌, ◌++◌, Option, none, some, ◌&&◌, ◌==◌, ltb, bytes_eq,
  if◌then◌else◌, length, get_elem?, codes,
}
use kernel_bypass_group_proj.Base.Results.{◌>>=◌}
use kernel_bypass_group_proj.Base.Int.{ℤ}
use kernel_bypass_group_proj.Mem.{Mem}
use kernel_bypass_group_proj.Clients.{Settings, Outcome, undefined, run_client}

abbrev pub num_keys_per_packet : ℕ
num_keys_per_packet = 4

abbrev pub csv_key_nums : ℕ
csv_key_nums = 200

-- the length of a row of key_list
abbrev pub max_row_length : ℕ
max_row_length = 32

-- The loop of get_list_of_keys. `words` is what `file >> buffer` reads, nothing for a file that
-- cannot be opened; `none` is a strcpy past a row, or to a row that is not there.
pub add_rows : List Bytes → List Bytes → Option (List Bytes)
add_rows key_list [] = some key_list
add_rows key_list (buffer ∷ words) =
    if bytes_eq buffer (codes "\n")
    then some key_list
    else (if ltb (length key_list) csv_key_nums && ltb (length buffer) max_row_length
        then some (key_list ++ buffer ∷ [])
        else none)
      >>= (λ rows. add_rows rows words)

-- The rows that are filled; key_num is their number.
unfoldable pub get_list_of_keys : List Bytes → Option (List Bytes)
unfolding add_rows
get_list_of_keys words = add_rows [] words

-- `strcat(msg, ...)` in `char msg[512]`
abbrev pub strcat : Bytes → Bytes → Option Bytes
strcat msg text = if ltb (length msg + length text) 512 then some (msg ++ text) else none

-- The loop of create_rand_msg, for `n` more keys; `draws` calls of rand came before. There is no
-- remainder by a key_num of 0.
pub add_rand_keys : (ℕ → ℕ) → List Bytes → ℕ → ℕ → Bytes → Option (Bytes × ℕ)
add_rand_keys rand key_list zero draws msg = some (msg, draws)
add_rand_keys rand key_list (suc n) draws msg =
    (if length key_list == 0 then none else get_elem? key_list (rand draws % length key_list))
    >>= (λ key. strcat msg (codes " ") >>= (λ spaced.
        strcat spaced key >>= (λ longer. add_rand_keys rand key_list n (draws + 1) longer)))

unfoldable pub create_rand_msg : (ℕ → ℕ) → List Bytes → ℕ → Option (Bytes × ℕ)
unfolding add_rand_keys
create_rand_msg rand key_list draws =
    add_rand_keys rand key_list num_keys_per_packet draws (codes "gets")

abbrev pub rand_settings : (ℕ → ℕ) → List Bytes → Settings
rand_settings rand key_list = record {
  max_length = 1024;
  burst_size = 1;
  burst_number = 1000;
  message = create_rand_msg rand key_list;
}

-- main, from the list of keys on
unfoldable pub rand_client_main : List Bytes → (ℕ → ℕ) → (ℕ → ℤ × Mem) → Mem → Outcome
unfolding run_client get_list_of_keys create_rand_msg
rand_client_main words rand recvfrom garbage = elim (get_list_of_keys words) [
  | none ↦ undefined
  | some key_list ↦ run_client (rand_settings rand key_list) rand recvfrom garbage
]
